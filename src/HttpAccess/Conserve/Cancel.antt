-- ===== src/HttpAccess/Conserve/Cancel.antt =====
-- The transactions of `cancel` and `cancel_many`, and the invariant.
use gpu_batch_crypto.Prelude.{
  ℕ, ◌+◌, ◌≡◌, refl, sym, ◌∙◌, inl, inr, true, false, some, List, [], ◌∷◌, Text, Bytes, text_eq,
  raise_if, raise_if-ok, Returns, Returns-bind, Returns-ok, if◌then◌else◌, arith, any, All,
  All-mono, Option-cases, text_eq_sound, text_eq_comm, map_result, text_eq_iff,
}
use gpu_batch_crypto.Python.Values.{Value}
use gpu_batch_crypto.AccessBook.Clearing.{sorted, has_duplicate}
use gpu_batch_crypto.Sql.{select_first, update_where}
use gpu_batch_crypto.Sql.Laws.{Single, select-holds, select-weaken, All-select}
use gpu_batch_crypto.Sql.Update.{All-update, Single-update, select_sum-update}
use gpu_batch_crypto.Sql.Narrow.{select-update_other}
use gpu_batch_crypto.HttpAccess.Checks.{
  denied, bad_cancellation, duplicate_book, unknown_book, wrong_buyer, identifier,
}
use gpu_batch_crypto.HttpAccess.Tables.{
  Account, Book, Db, of_buyer, of_id, of_owner, release_row, close_row, update_accounts,
  update_books, close_books, insert_cancellation,
}
use gpu_batch_crypto.HttpAccess.Ledger.{
  CancelRequest, CancelArgs, check_cancel, bounded_list, written, or_raise, cancel_body, cancel,
  held_units, cancellation_row, cancel_new, cancel_many_body, cancel_many, sum_remaining,
}
use gpu_batch_crypto.HttpAccess.Rows.{release_row-Shifted, close_row-inv, of_id-close_row}
use gpu_batch_crypto.HttpAccess.Invariant.{
  IsSettled, IsConserved, HasAccount, rebalance, any-update_accounts,
}
use gpu_batch_crypto.HttpAccess.Bodies.{
  written-ok, or_raise-ok, transaction-Returns, unless_prior-Returns, with_args-keeps,
  update_accounts-inv, update_books-inv, insert_cancellation-inv,
}

-- What closing books of a buyer that hold n units does to the database.
pub record Closed (buyer : Text) (n : ℕ) (db db' : Db) : Type 0 where
  pub accounts : db'.accounts ≡ db.accounts
  pub receipts : db'.receipts ≡ db.receipts
  pub accrued : db'.accrued ≡ db.accrued
  pub shrunk :
      (k : Text)
      → sum_remaining k db'.books + (if text_eq buyer k then n else 0) ≡ sum_remaining k db.books
  pub owners :
      All (λ (b : Book). HasAccount db.accounts b.buyer) db.books
      → All (λ (b : Book). HasAccount db.accounts b.buyer) db'.books
  pub ids : (k : Text) → Single (of_id k) db'.books

module _ (buyer id : Text) (db : Db) (single : (k : Text) → Single (of_id k) db.books) where
  -- The row as its owner finds it, by its key alone.
  owned :
      (b : Book)
      → select_first (of_owner id buyer) db.books ≡ some b
      → (b.id ≡ id) × (b.buyer ≡ buyer) × (select_first (of_id id) db.books ≡ some b)
  owned b row =
      let key = select-holds (of_owner id buyer) db.books row in
      (
        text_eq_sound b.id id (ground (arith, key)),
        text_eq_sound b.buyer buyer (ground (arith, key)),
        select-weaken (of_id id) (of_owner id buyer) db.books (single id) (λ x t. ground arith) row,
      )

  close-Closed :
      (b : Book) {db' : Db}
      → select_first (of_owner id buyer) db.books ≡ some b
      → update_books close_row id db ≡ some db'
      → Closed buyer b.remaining db db'
  unfolding sum_remaining
  close-Closed b row e =
      let shut : close_row b ≡ some (record b { remaining = 0; closed = true }) =
        unfold close_row in refl in
      let (same_id, owner, found) = owned b row in
      let (books', closed, same) = update_books-inv db close_row id e in
      rw same (record {
        accounts = refl;
        receipts = refl;
        accrued = refl;
        shrunk = λ k. ground (
          arith,
          owner,
          select_sum-update (λ (x : Book). text_eq x.buyer k) (of_id id) (λ x. x.remaining)
              close_row db.books {y = record b { remaining = 0; closed = true }} (single id) found
              shut closed,
        );
        owners = λ h.
            All-update (λ (x : Book). HasAccount db.accounts x.buyer) _ (of_id id) close_row
              db.books (λ x _ p. p) (λ x y _ m p. rw (close_row-inv x m) p) h closed;
        ids = λ k.
            Single-update (of_id k) (of_id id) close_row db.books
              (λ x y. of_id-close_row x {y = y} k) (single k) closed;
      })

-- Closing one book leaves what the others hold.
held_units-close :
    (buyer id : Text) (ids : List Text) (db : Db) {db' : Db}
    → any (text_eq id) ids ≡ false
    → update_books close_row id db ≡ some db'
    → held_units buyer ids db'.books ≡ held_units buyer ids db.books
unfolding held_units
held_units-close buyer id [] db h e = refl
held_units-close buyer id (j ∷ ids) db {db'} h e =
    let (books', closed, same) = update_books-inv db close_row id e in
    let other : text_eq id j ≡ false = ground (arith, h) in
    let found : select_first (of_owner j buyer) books' ≡ select_first (of_owner j buyer) db.books =
      select-update_other (of_owner j buyer) (of_id id) close_row db.books
        (λ x t. ground (arith, text_eq_iff x.id id, other))
        (λ x y t m. ground (arith, close_row-inv x m, text_eq_iff x.id id, other)) closed in
    ground (arith, found, same, held_units-close buyer id ids db {db' = db'} (ground (arith, h)) e)

module _ (buyer : Text) {n m : ℕ} {db db₁ db' : Db} where
  Closed-trans : Closed buyer n db db₁ → Closed buyer m db₁ db' → Closed buyer (n + m) db db'
  Closed-trans first rest = record {
    accounts = rest.accounts ∙ first.accounts;
    receipts = rest.receipts ∙ first.receipts;
    accrued = rest.accrued ∙ first.accrued;
    shrunk = λ k. ground (arith, first.shrunk k, rest.shrunk k);
    owners = λ h. (rw (first.accounts) at (rest.owners)) (first.owners h);
    ids = rest.ids;
  }

-- The rows are the buyer's and no id is given twice.
close_books-Closed :
    (buyer : Text) (ids : List Text) (n : ℕ) (db : Db) {db' : Db}
    → ((k : Text) → Single (of_id k) db.books)
    → has_duplicate ids ≡ false
    → held_units buyer ids db.books ≡ some n
    → close_books ids db ≡ some db'
    → Closed buyer n db db'
unfolding held_units close_books has_duplicate
close_books-Closed buyer [] n db {db'} single d h e =
    let same : db ≡ db' = cc in
    let none : 0 ≡ n = cc in
    rw (← same, ← none)
      (record {
        accounts = refl;
        receipts = refl;
        accrued = refl;
        shrunk = λ k. ground arith;
        owners = λ o. o;
        ids = single;
      })
close_books-Closed buyer (id ∷ ids) n db {db'} single d h e =
    elim (Option-cases (select_first (of_owner id buyer) db.books)) [
      | inl f ↦ absurd (ground (arith, f))
      | inr (b, f) ↦ elim (Option-cases (held_units buyer ids db.books)) [
        | inl f' ↦ absurd (ground (arith, f, f'))
        | inr (m, f') ↦ elim (Option-cases (update_books close_row id db)) [
          | inl f'' ↦ absurd (ground (arith, f''))
          | inr (db₁, f'') ↦
              let sum : b.remaining + m ≡ n = ground (arith, f, f') in
              let first : Closed buyer b.remaining db db₁ =
                close-Closed buyer id db single b f f'' in
              let held = held_units-close buyer id ids db {db' = db₁} (ground (arith, d)) f'' in
              rw (← sum) (
                Closed-trans buyer first (
                  close_books-Closed buyer ids m db₁ {db' = db'} (first.ids) (ground (arith, d))
                    (held ∙ f') (ground (arith, f''))))
        ]
      ]
    ]

close_books-accounts :
    (ids : List Text) (db : Db) {db' : Db}
    → close_books ids db ≡ some db'
    → db'.accounts ≡ db.accounts
unfolding close_books
close_books-accounts [] db {db'} e = ground (arith, e)
close_books-accounts (id ∷ ids) db {db'} e = elim (Option-cases (update_books close_row id db)) [
  | inl f ↦ absurd (ground (arith, f))
  | inr (db₁, f) ↦
      let (_, _, same) = update_books-inv db close_row id f in
      close_books-accounts ids db₁ {db' = db'} (ground (arith, f)) ∙ ground (arith, same)
]

-- The units go back to the balance of the buyer.
module _ (db : Db) (inv : IsConserved db) (buyer : Text) (n : ℕ) where
  open inv use {buyers, book_buyers, receipt_buyers, ids}

  released :
      {accounts' : List Account} {db' : Db}
      → HasAccount db.accounts buyer
      → update_where (of_buyer buyer) (release_row n) db.accounts ≡ some accounts'
      → Closed buyer n (record db { accounts = accounts' }) db'
      → IsConserved db'
  released {accounts'} {db'} known wrote c =
      let has_account : (b : Text) → any (of_buyer b) accounts' ≡ any (of_buyer b) db.accounts =
        any-update_accounts buyer (release_row n) db.accounts same wrote in
      let still : All (λ (b : Book). HasAccount accounts' b.buyer) db'.books =
        c.owners (All-mono _ _ db.books (λ b h. has_account b.buyer ∙ h) book_buyers) in
      let settled : IsSettled accounts' db'.books db.receipts (db.accrued + 0) =
        rebalance inv buyer (release_row n) 0 db'.books db.receipts same
          (λ x y e. (release_row-Shifted n x e).spent_after)
          (λ x y t e ok.
            let s = release_row-Shifted n x e in
            record {
              total = s.total;
              reserved = ground (
                arith,
                s.buyer,
                s.reserved_after,
                ok.reserved,
                c.shrunk x.buyer,
                text_eq_comm buyer x.buyer,
                t,
              );
              spent = ground (arith, s.buyer, s.spent_after, ok.spent);
            })
          (λ b t. (ground (arith, c.shrunk b, text_eq_comm buyer b, t), refl)) known wrote
          (omega arith) (All-mono _ _ db'.books (λ b h. sym (has_account b.buyer) ∙ h) still)
          receipt_buyers (c.ids) in
      let money : db.accrued + 0 ≡ db'.accrued = omega (arith, c.accrued) in
      rw (c.accounts, c.receipts, ← money) settled
    where
      same : (x y : Account) → release_row n x ≡ some y → y.buyer ≡ x.buyer
      same x y e = (release_row-Shifted n x e).buyer

  -- The statements that release and close, on rows that are the buyer's.
  pub cancelled :
      {db₁ db₂ : Db} (ids' : List Text)
      → HasAccount db.accounts buyer
      → has_duplicate ids' ≡ false
      → held_units buyer ids' db.books ≡ some n
      → update_accounts (release_row n) (of_buyer buyer) db ≡ some db₁
      → close_books ids' db₁ ≡ some db₂
      → IsConserved db₂
  cancelled {db₁} {db₂} ids' known d h e₁ e₂ =
      let (accounts', wrote, same) = update_accounts-inv db (release_row n) (of_buyer buyer) e₁ in
      let c : Closed buyer n (record db { accounts = accounts' }) db₂ =
        close_books-Closed buyer ids' n (record db { accounts = accounts' }) ids d h
          (rw (← same) e₂) in
      released known wrote c

  -- An account that is there afterwards was there before.
  known_before :
      {db₁ db₂ : Db} (ids' : List Text)
      → update_accounts (release_row n) (of_buyer buyer) db ≡ some db₁
      → close_books ids' db₁ ≡ some db₂
      → HasAccount db₂.accounts buyer
      → HasAccount db.accounts buyer
  known_before {db₁} {db₂} ids' e₁ e₂ known =
      let (accounts', wrote, same) = update_accounts-inv db (release_row n) (of_buyer buyer) e₁ in
      let before : any (of_buyer buyer) accounts' ≡ any (of_buyer buyer) db.accounts =
        any-update_accounts buyer (release_row n) db.accounts
          (λ x y e. (release_row-Shifted n x e).buyer) wrote buyer in
      let kept : db₂.accounts ≡ accounts' =
        close_books-accounts ids' db₁ {db' = db₂} e₂ ∙ ground (arith, same) in
      sym before ∙ (rw kept at known)

-- The first of the books is a row of the buyer's, so that the buyer has an account.
held-HasAccount :
    (db : Db) (inv : IsConserved db) (buyer id : Text) {b : Book}
    → select_first (of_owner id buyer) db.books ≡ some b
    → HasAccount db.accounts buyer
held-HasAccount db inv buyer id {b} row =
    let key = select-holds (of_owner id buyer) db.books row in
    let owner : b.buyer ≡ buyer = text_eq_sound b.buyer buyer (ground (arith, key)) in
    rw (← owner) (
      All-select (λ (x : Book). HasAccount db.accounts x.buyer) (of_owner id buyer) db.books
        (inv.book_buyers) row)

abbrev Kept : {A : Type 0} → A × Db → Type 0
Kept r = IsConserved r.1

check_cancel-distinct :
    (sha256 : Bytes → Bytes) (r : CancelRequest)
    → Returns (λ (a : CancelArgs). has_duplicate a.books ≡ false) (check_cancel sha256 r)
unfolding check_cancel
check_cancel-distinct sha256 r = Returns-bind D (identifier r.buyer) _ (λ _ _.
    Returns-bind D (identifier r.request_id) _ (λ _ _.
      Returns-bind D (bounded_list 256 (denied bad_cancellation) r.books) _ (λ given _.
        Returns-bind D (map_result identifier given) _ (λ names _.
          Returns-bind D (raise_if (has_duplicate (sorted names)) (denied duplicate_book)) _
            (λ _ e. raise_if-ok _ (denied duplicate_book) e)))))
  where
    D : CancelArgs → Type 0
    D a = has_duplicate a.books ≡ false

module _ (db : Db) (inv : IsConserved db) where
  cancel_body-Returns : (buyer book : Text) → Returns Kept (cancel_body buyer book db)
  unfolding cancel_body
  cancel_body-Returns buyer book =
      Returns-bind Kept (or_raise (select_first (of_owner book buyer) db.books) unknown_book) _
        (λ b e₀.
          Returns-bind Kept
            (written (update_accounts (release_row b.remaining) (of_buyer buyer) db)) _
            (λ db₁ e₁. Returns-bind Kept (written (update_books close_row book db₁)) _ (λ db₂ e₂.
              let row = or_raise-ok _ unknown_book e₀ in
              cancelled db inv buyer b.remaining {db₁ = db₁} {db₂ = db₂} (book ∷ [])
                (held-HasAccount db inv buyer book row) (unfold has_duplicate in refl)
                (unfold held_units in ground (arith, row)) (written-ok _ e₁)
                (unfold close_books in ground (arith, written-ok _ e₂)))))

  cancelled_row :
      (a : CancelArgs) (n : ℕ) {db₁ db₂ db₃ : Db}
      → has_duplicate a.books ≡ false
      → held_units a.buyer a.books db.books ≡ some n
      → update_accounts (release_row n) (of_buyer a.buyer) db ≡ some db₁
      → close_books a.books db₁ ≡ some db₂
      → insert_cancellation (cancellation_row a n) db₂ ≡ some db₃
      → IsConserved db₃
  unfolding cancellation_row
  cancelled_row a n {db₁} {db₂} d h e₁ e₂ e₃ =
      let (known, same) = insert_cancellation-inv db₂ (cancellation_row a n) e₃ in
      rw same (
        cancelled db inv a.buyer n a.books (known_before db inv a.buyer n a.books e₁ e₂ known) d h
          e₁ e₂)

  cancel_new-Returns :
      (a : CancelArgs) → has_duplicate a.books ≡ false → Returns Kept (cancel_new a db)
  unfolding cancel_new cancellation_row
  cancel_new-Returns a distinct =
      Returns-bind Kept (or_raise (held_units a.buyer a.books db.books) wrong_buyer) _ (λ n e₀.
        Returns-bind Kept (written (update_accounts (release_row n) (of_buyer a.buyer) db)) _
          (λ db₁ e₁. Returns-bind Kept (written (close_books a.books db₁)) _ (λ db₂ e₂.
            Returns-bind Kept (written (insert_cancellation (cancellation_row a n) db₂)) _
              (λ db₃ e₃.
                cancelled_row a n distinct (or_raise-ok _ wrong_buyer e₀) (written-ok _ e₁)
                  (written-ok _ e₂) (written-ok _ e₃)))))

  cancel_many_body-Returns :
      (a : CancelArgs) → has_duplicate a.books ≡ false → Returns Kept (cancel_many_body a db)
  unfolding cancel_many_body
  cancel_many_body-Returns a distinct = Returns-bind Kept _ _ (λ earlier _.
      unless_prior-Returns IsConserved earlier (cancel_new a) db inv
        (cancel_new-Returns a distinct))

  pub cancel-IsConserved : (buyer : Text) (book : Value) → IsConserved (cancel buyer book db).1
  unfolding cancel
  cancel-IsConserved buyer book = with_args-keeps IsConserved (identifier book) _ db inv (λ id _.
      transaction-Returns IsConserved (cancel_body buyer id) db inv (cancel_body-Returns buyer id))

  pub cancel_many-IsConserved :
      (sha256 : Bytes → Bytes) (r : CancelRequest) → IsConserved (cancel_many sha256 r db).1
  unfolding cancel_many
  cancel_many-IsConserved sha256 r =
      with_args-keeps IsConserved (check_cancel sha256 r) _ db inv (λ a e.
        transaction-Returns IsConserved (cancel_many_body a) db inv (
          cancel_many_body-Returns a (
            Returns-ok (λ (a : CancelArgs). has_duplicate a.books ≡ false) _
              (check_cancel-distinct sha256 r) e)))
