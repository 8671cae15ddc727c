-- ===== src/HttpAccess/Promises.antt =====
-- What `Ledger.spend` promises over several calls (examples/http_access/ledger.py): a retry, a
-- second spending of one item, and a book that was cancelled.
use gpu_batch_crypto.Prelude.{
  ℕ, ◌≡◌, refl, sym, ◌∙◌, inl, inr, true, false, Option, none, some, List, [], ◌∷◌, ◌++◌, Text,
  text_eq, ok, err, Returns, Returns-mono, Returns-ok, arith, any, Option-cases, Bool-cases,
  Result-cases, text_eq_refl,
}
use gpu_batch_crypto.Sql.{select_first}
use gpu_batch_crypto.Sql.Laws.{any-append, select-append_new, select-holds, All-select}
use gpu_batch_crypto.Python.Values.{Value}
use gpu_batch_crypto.HttpAccess.Checks.{Catalog, Error}
use gpu_batch_crypto.HttpAccess.Tables.{
  Receipt, Spending, Db, spend_request, receipt_key, of_owner, Book,
}
use gpu_batch_crypto.HttpAccess.Ledger.{
  Sign, Clearing, SpendRequest, SpendArgs, check_spend, transaction, prior, receipt_row, spend_new,
  spend_body, spend, is_usable, cancel,
}
use gpu_batch_crypto.HttpAccess.Later.{Later, Later-Grows}
use gpu_batch_crypto.HttpAccess.Cancelled.{
  cancel-Shut, transaction-ok, transaction-err, transaction-inv,
}
use gpu_batch_crypto.HttpAccess.Granted.{Usable, Granted, spend_new-Granted}

-- The row that a request id names.
abbrev pub row_of : SpendArgs → Db → Option Spending
row_of a db = select_first (spend_request a.buyer a.request_id) db.receipts

-- A row with the fingerprint of the request and the receipt.
abbrev Recorded : SpendArgs → Receipt → Option Spending → Type 0
Recorded a r found =
    (row : Spending) × (found ≡ some row)
    × (text_eq row.fingerprint a.fingerprint ≡ true)
    × (row.response ≡ r)

module _ (env : Clearing) (a : SpendArgs) (db : Db) where
  body-new : row_of a db ≡ none → spend_body env a db ≡ spend_new env a db
  unfolding spend_body prior
  body-new e = rw e refl

  body-same : {r : Receipt} → Recorded a r (row_of a db) → spend_body env a db ≡ ok (r, db)
  unfolding spend_body prior
  body-same (row, e, same, response) = rw (e, same, response) refl

  -- The row of a new spending is found by its request id.
  new-Recorded :
      (x : Receipt × Db) → row_of a db ≡ none → Granted env a db x → Recorded a x.0 (row_of a x.1)
  unfolding receipt_row
  new-Recorded x e g = (
    receipt_row env a,
    rw (g.stored) (
        select-append_new (spend_request a.buyer a.request_id) db.receipts (receipt_row env a) e
        ∙ ground (arith, text_eq_refl a.buyer, text_eq_refl a.request_id)),
    text_eq_refl a.fingerprint,
    sym g.receipt,
  )

  old-Recorded :
      (row : Spending)
      → row_of a db ≡ some row
      → Returns (λ (x : Receipt × Db). Recorded a x.0 (row_of a x.1)) (spend_body env a db)
  unfolding spend_body prior
  old-Recorded row e = elim (Bool-cases (text_eq row.fingerprint a.fingerprint)) [
    | inl t ↦ rw (e, t) (row, e, t, refl)
    | inr t ↦ rw (e, t) tt
  ]

  -- A spending that returned has its row, or had it before.
  spend_body-Recorded :
      Returns (λ (x : Receipt × Db). Recorded a x.0 (row_of a x.1)) (spend_body env a db)
  spend_body-Recorded = elim (Option-cases (row_of a db)) [
    | inl e ↦ rw (body-new e) (
        Returns-mono (Granted env a db) _ (spend_new env a db) (λ x g. new-Recorded x e g)
          (spend_new-Granted env a db))
    | inr (row, e) ↦ old-Recorded row e
  ]

-- The row of a spending from a book spends the item.
stored-spent :
    (env : Clearing) (a : SpendArgs) (db : Db) (receipts : List Spending) (book : Text)
    → a.book ≡ some book
    → receipts ≡ db.receipts ++ receipt_row env a ∷ []
    → any (receipt_key book a.resource) receipts ≡ true
unfolding receipt_row
stored-spent env a db receipts book from stored = rw stored (
    ground (
      arith,
      any-append (receipt_key book a.resource) db.receipts (receipt_row env a ∷ []),
      from,
      text_eq_refl book,
      text_eq_refl a.resource,
    ))

is_usable-open : (b : Book) (token : Option Value) → is_usable b token ≡ true → b.closed ≡ false
unfolding is_usable
is_usable-open b token h = ground (arith, h)

module _ (catalog : Catalog) (q : SpendRequest) {a : SpendArgs} where
  spend-body :
      (env : Clearing) (db : Db)
      → check_spend env.sha256 catalog q ≡ ok a
      → spend env catalog q db ≡ transaction (spend_body env a) db
  unfolding spend
  spend-body env db c = rw c

  -- A spending that returned is repeated by the same request on any database that still has its
  -- row, whatever the clock then reads and whatever was revoked, cancelled or spent since: the
  -- same receipt comes back and nothing is changed.
  pub spend-retry :
      (env env' : Clearing) (db db' later : Db) {r : Receipt}
      → env'.sha256 ≡ env.sha256
      → check_spend env.sha256 catalog q ≡ ok a
      → spend env catalog q db ≡ (ok r, db')
      → row_of a later ≡ row_of a db'
      → spend env' catalog q later ≡ (ok r, later)
  spend-retry env env' db db' later {r} same c returned kept =
      let first : transaction (spend_body env a) db ≡ (ok r, db') =
        sym (spend-body env db c) ∙ returned in
      let recorded : Recorded a r (row_of a db') =
        Returns-ok (λ (x : Receipt × Db). Recorded a x.0 (row_of a x.1)) _
          (spend_body-Recorded env a db) (transaction-inv (spend_body env a) db first) in
      spend-body env' later (rw same c)
      ∙ transaction-ok (spend_body env' a) later (body-same env' a later (rw kept recorded))

-- A new spending from a book that cannot be used raises, and nothing is changed.
spend-unusable :
    (env : Clearing) (catalog : Catalog) (q : SpendRequest) {a : SpendArgs} (db : Db) (book : Text)
    → check_spend env.sha256 catalog q ≡ ok a
    → row_of a db ≡ none
    → a.book ≡ some book
    → ¬ Usable env a book db
    → (e : Error) × (spend env catalog q db ≡ (err e, db))
spend-unusable env catalog q {a} db book c fresh from refused =
    elim (Result-cases (spend_new env a db)) [
      | inl (e, h) ↦ (
        e,
        spend-body catalog q env db c
            ∙ transaction-err (spend_body env a) db (body-new env a db fresh ∙ h),
      )
      | inr (x, h) ↦ absurd (
          refused
            ((Returns-ok (Granted env a db) _ (spend_new-Granted env a db) h).from_book book from))
    ]

-- A resource of a book that a new spending returned for is not spent from that book again under a
-- request id that has no row, whoever asks and whatever transactions came between: the call raises
-- and changes nothing.
pub spend-once :
    (keys : ℕ → Sign) (env env' : Clearing) (catalog : Catalog) (q q' : SpendRequest)
    {a a' : SpendArgs} (db db' later : Db) {r : Receipt} (book : Text)
    → check_spend env.sha256 catalog q ≡ ok a
    → check_spend env'.sha256 catalog q' ≡ ok a'
    → row_of a db ≡ none
    → spend env catalog q db ≡ (ok r, db')
    → Later keys catalog db' later
    → row_of a' later ≡ none
    → a.book ≡ some book
    → a'.book ≡ some book
    → a'.resource ≡ a.resource
    → (e : Error) × (spend env' catalog q' later ≡ (err e, later))
spend-once keys env env' catalog q q' {a} {a'} db db' later {r} book c c' fresh returned between
      fresh' from from' one =
    let body : spend_body env a db ≡ ok (r, db') =
      transaction-inv (spend_body env a) db (sym (spend-body catalog q env db c) ∙ returned) in
    let g : Granted env a db (r, db') =
      Returns-ok (Granted env a db) _ (spend_new-Granted env a db)
        (sym (body-new env a db fresh) ∙ body) in
    let spent : any (receipt_key book a.resource) later.receipts ≡ true =
      (Later-Grows keys catalog db' between).receipts (receipt_key book a.resource)
        (stored-spent env a db db'.receipts book from g.stored) in
    spend-unusable env' catalog q' later book c' fresh' from' (λ u.
      let unspent : any (receipt_key book a.resource) later.receipts ≡ false =
        (rw one at (u.unspent)) in
      cc)

-- A book that its owner cancelled gives no spending under a request id that has no row, whoever asks
-- and whatever transactions came between: the call raises and changes nothing.
pub cancel-spend :
    (keys : ℕ → Sign) (env : Clearing) (catalog : Catalog) (q : SpendRequest) {a : SpendArgs}
    (db db' later : Db) (owner book : Text) {n : ℕ}
    → cancel owner (Value.str book) db ≡ (ok n, db')
    → Later keys catalog db' later
    → check_spend env.sha256 catalog q ≡ ok a
    → row_of a later ≡ none
    → a.book ≡ some book
    → (e : Error) × (spend env catalog q later ≡ (err e, later))
cancel-spend keys env catalog q {a} db db' later owner book done between c fresh from =
    let (_, all) =
      (Later-Grows keys catalog db' between).shut book (cancel-Shut owner book db done) in
    spend-unusable env catalog q later book c fresh from (λ u.
      let key = select-holds (of_owner book a.buyer) later.books u.owned in
      let shut : u.row.closed ≡ true =
        All-select (λ (b : Book). text_eq b.id book ≡ true → b.closed ≡ true)
          (of_owner book a.buyer) later.books all u.owned (ground (arith, key)) in
      let open_book : u.row.closed ≡ false = is_usable-open u.row a.token u.presented in cc)
