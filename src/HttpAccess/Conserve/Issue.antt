-- ===== src/HttpAccess/Conserve/Issue.antt =====
-- `seed`, `revoke` and the commit of `issue`, and the invariant.
use gpu_batch_crypto.Prelude.{
  raise_if-ok, not-false, ℕ, ◌+◌, ◌≡◌, refl, sym, ◌∙◌, inl, inr, true, false, ◌&&◌, not, some, List,
  [], ◌∷◌, ◌++◌, map, Text, text_eq, Result, ok, err, raise_if, Returns, Returns-bind, Returns-mono,
  Returns-ok, ltb, leb, ◌==◌, if◌then◌else◌, arith, any, All, All-append, All-mono, Bool-cases,
  text_eq_sound, text_eq_comm, length,
}
use gpu_batch_crypto.Python.Json.{Json}
use gpu_batch_crypto.Python.Values
use gpu_batch_crypto.Python.Values.{Value}
use gpu_batch_crypto.Sql.{select_sum, update_where}
use gpu_batch_crypto.Sql.Laws.{
  Single, Single-append, select_sum-append, select_sum_none, any-append,
}
use gpu_batch_crypto.Sql.Narrow.{update_narrow, any_weaken, any-select_sum}
use gpu_batch_crypto.HttpAccess.Checks.{
  denied, over_budget, expired_preparing, revoked_preparing, no_funds,
}
use gpu_batch_crypto.HttpAccess.Tables.{
  Account, Book, Entry, Issued, Spending, Db, of_buyer, of_id, covers, reserve_row, update_accounts,
  insert_account, insert_book, insert_items, insert_issue, add_revoked,
}
use gpu_batch_crypto.HttpAccess.Ledger.{
  Prepared, Issuing, IssueArgs, Sign, written, transaction, check_seed, seed_body, seed, revoke,
  manifest_units, total_units, draw_ids, responses, issue_prepare, new_book, to_item, insert_books,
  row_count, issue_row, issue_new, commit_body, issue_commit, sum_remaining, sum_redeemed,
  sum_spent, all_claims, signed,
}
use gpu_batch_crypto.HttpAccess.Rows.{reserve_row-Shifted}
use gpu_batch_crypto.HttpAccess.Invariant.{
  IsBalanced, IsSettled, IsConserved, HasAccount, rebalance, any-update_accounts,
}
use gpu_batch_crypto.HttpAccess.Bodies.{
  written-ok, transaction-Returns, unless_prior-Returns, with_args-keeps, update_accounts-inv,
  insert_account-inv, insert_book-inv, insert_issue-inv, insert_items-inv,
}

-- A buyer without an account has no rows.
module _ {A : Type 0} (buyer_of : A → Text) (units : A → ℕ) (accounts : List Account) (k : Text)
    (absent : any (of_buyer k) accounts ≡ false) where
  none_of :
      (rows : List A)
      → All (λ r. HasAccount accounts (buyer_of r)) rows
      → any (λ r. text_eq (buyer_of r) k) rows ≡ false
  none_of [] h = refl
  none_of (r ∷ rows) h = elim (Bool-cases (text_eq (buyer_of r) k)) [
    | inl t ↦
        let e : any (of_buyer k) accounts ≡ true = (rw (text_eq_sound (buyer_of r) k t) at (h.0)) in
        absurd (cc)
    | inr t ↦ ground (arith, t, none_of rows h.1)
  ]

  pub sum_unknown :
      (rows : List A)
      → All (λ r. HasAccount accounts (buyer_of r)) rows
      → select_sum (λ r. text_eq (buyer_of r) k) units rows ≡ 0
  sum_unknown rows h = select_sum_none (λ r. text_eq (buyer_of r) k) units rows (none_of rows h)

module _ (db : Db) (inv : IsConserved db) where
  seeded :
      (buyer : Text) (n : ℕ)
      → any (of_buyer buyer) db.accounts ≡ false
      → IsSettled
          (db.accounts
            ++ record { buyer = buyer; initial = n; available = n; reserved = 0; spent = 0 } ∷ [])
          db.books
          db.receipts
          db.accrued
  unfolding sum_remaining sum_redeemed sum_spent select_sum
  seeded buyer n absent =
      let row : Account = record {
        buyer = buyer;
        initial = n;
        available = n;
        reserved = 0;
        spent = 0;
      } in
      let grown : (b : Text) → HasAccount db.accounts b → HasAccount (db.accounts ++ row ∷ []) b =
        λ b h. ground (arith, any-append (of_buyer b) db.accounts (row ∷ []), h) in
      record {
        balances =
            All-append (IsBalanced db.books db.receipts) db.accounts (row ∷ []) inv.balances (
              record {
                total = omega arith;
                reserved = sym (
                    sum_unknown (λ (b : Book). b.buyer) (λ b. b.remaining) db.accounts buyer absent
                      db.books inv.book_buyers);
                spent = sym (
                    sum_unknown (λ (r : Spending). r.buyer) (λ r. r.units) db.accounts buyer absent
                      db.receipts inv.receipt_buyers);
              },
              tt,
            );
        spending = omega (
          arith,
          inv.spending,
          select_sum-append (λ _. true) (λ (a : Account). a.spent) db.accounts (row ∷ []),
        );
        accrual = inv.accrual;
        buyers = λ k.
            Single-append (of_buyer k) db.accounts row (inv.buyers k)
              (λ t. rw (← text_eq_sound buyer k t) absent);
        book_buyers = All-mono _ _ db.books (λ b h. grown b.buyer h) inv.book_buyers;
        receipt_buyers = All-mono _ _ db.receipts (λ r h. grown r.buyer h) inv.receipt_buyers;
        ids = inv.ids;
      }

  pub seed-IsConserved : (buyer units : Value) → IsConserved (seed buyer units db).1
  unfolding seed seed_body
  seed-IsConserved buyer units =
      with_args-keeps IsConserved (check_seed buyer units) _ db inv (λ a _.
        transaction-Returns IsConserved (seed_body a) db inv (
          Returns-bind (λ (r : Unit {0} × Db). IsConserved r.1)
            (written (insert_account a.0 a.1 db)) _
            (λ db' e.
              let (absent, same) = insert_account-inv db a.0 a.1 (written-ok _ e) in
              rw same (seeded a.0 a.1 absent))))

  pub revoke-IsConserved : (kid : Text) → IsConserved (revoke kid db).1
  unfolding revoke transaction add_revoked
  revoke-IsConserved kid = elim (Bool-cases (any (text_eq kid) db.revoked)) [
    | inl t ↦ rw t inv
    | inr t ↦ rw t inv
  ]

-- The units of the manifests of a response.
unfoldable pub response_units : List Issued → ℕ
response_units [] = 0
response_units (x ∷ xs) = manifest_units x.manifest + response_units xs

-- What the loop over the books has done to the database.
record Inserted (p : Prepared) (xs : List Issued) (db db' : Db) : Type 0 where
  accounts : db'.accounts ≡ db.accounts
  receipts : db'.receipts ≡ db.receipts
  accrued : db'.accrued ≡ db.accrued
  grown :
      (b : Text)
      → sum_remaining b db'.books
        ≡ sum_remaining b db.books + (if text_eq p.buyer b then response_units xs else 0)
  owners :
      All (λ (b : Book). HasAccount db.accounts b.buyer) db.books
      → All (λ (b : Book). HasAccount db.accounts b.buyer) db'.books
  ids : ((k : Text) → Single (of_id k) db.books) → (k : Text) → Single (of_id k) db'.books

module _ (p : Prepared) (x : Issued) (xs : List Issued) {db db₁ db₂ db' : Db} where
  Inserted-cons :
      (any (of_id x.book) db.books ≡ false)
      → any (of_buyer p.buyer) db.accounts ≡ true
      → db₁ ≡ record db { books = db.books ++ new_book p x ∷ [] }
      → db₂ ≡ record db₁ { items = db₂.items }
      → Inserted p xs db₂ db'
      → Inserted p (x ∷ xs) db db'
  unfolding sum_remaining select_sum response_units new_book
  Inserted-cons fresh known e₁ e₂ rest =
      let books : db₂.books ≡ db.books ++ new_book p x ∷ [] = ground (arith, e₁, e₂) in
      let same : db₂.accounts ≡ db.accounts = ground (arith, e₁, e₂) in
      record {
        accounts = ground (arith, rest.accounts, same);
        receipts = ground (arith, rest.receipts, e₁, e₂);
        accrued = ground (arith, rest.accrued, e₁, e₂);
        grown = λ b. ground (
          arith,
          rest.grown b,
          books,
          select_sum-append (λ (b' : Book). text_eq b'.buyer b) (λ b'. b'.remaining) db.books
              (new_book p x ∷ []),
        );
        owners = λ h. (rw (same, books) at (rest.owners)) (
            All-append (λ (b : Book). HasAccount db.accounts b.buyer) db.books (new_book p x ∷ []) h
              (known, tt));
        ids = λ h. (rw books at (rest.ids)) (λ k.
            Single-append (of_id k) db.books (new_book p x) (h k)
              (λ t. rw (← text_eq_sound x.book k t) fresh));
      }

insert_books-Inserted :
    (p : Prepared) (xs : List Issued) (db : Db) → Returns (Inserted p xs db) (insert_books p xs db)
unfolding insert_books response_units
insert_books-Inserted p [] db = record {
  accounts = refl;
  receipts = refl;
  accrued = refl;
  grown = λ b. ground arith;
  owners = λ h. h;
  ids = λ h. h;
}
insert_books-Inserted p (x ∷ xs) db =
    Returns-bind (Inserted p (x ∷ xs) db) (written (insert_book (new_book p x) db)) _ (λ db₁ e₁.
      Returns-bind (Inserted p (x ∷ xs) db)
        (written (insert_items (map (to_item x.book) x.manifest) db₁)) _
        (λ db₂ e₂.
          Returns-mono (Inserted p xs db₂) (Inserted p (x ∷ xs) db) (insert_books p xs db₂)
            (λ db' rest.
              let (fresh, known, s₁) = insert_book-inv db (new_book p x) (written-ok _ e₁) in
              Inserted-cons p x xs (unfold new_book in fresh) (unfold new_book in known) s₁
                (insert_items-inv _ db₁ (written-ok _ e₂)) rest)
            (insert_books-Inserted p xs db₂)))

-- The total that is reserved is what the books hold.
abbrev pub IsReady : Prepared → Type 0
IsReady p = p.total ≡ response_units p.response

module _ (p : Prepared) (db : Db) (inv : IsConserved db) where
  open inv use {buyers, book_buyers, receipt_buyers, ids}

  issued :
      {accounts' : List Account} {db' : Db}
      → any (of_buyer p.buyer) db.accounts ≡ true
      → update_where (of_buyer p.buyer) (reserve_row p.total) db.accounts ≡ some accounts'
      → IsReady p
      → Inserted p p.response (record db { accounts = accounts' }) db'
      → IsConserved db'
  issued {accounts'} {db'} known wrote ready ins =
      let has_account : (b : Text) → any (of_buyer b) accounts' ≡ any (of_buyer b) db.accounts =
        any-update_accounts p.buyer (reserve_row p.total) db.accounts same wrote in
      let owned : All (λ (b : Book). HasAccount accounts' b.buyer) db'.books =
        ins.owners (All-mono _ _ db.books (λ b h. has_account b.buyer ∙ h) book_buyers) in
      let settled : IsSettled accounts' db'.books db.receipts (db.accrued + 0) =
        rebalance inv p.buyer (reserve_row p.total) 0 db'.books db.receipts same spends
          (λ x y t e ok.
            let s = reserve_row-Shifted p.total x e in
            record {
              total = s.total;
              reserved = ground (
                arith,
                s.buyer,
                s.reserved_after,
                ok.reserved,
                ins.grown x.buyer,
                text_eq_comm p.buyer x.buyer,
                t,
                ready,
              );
              spent = ground (arith, s.buyer, s.spent_after, ok.spent);
            })
          (λ b t. (ground (arith, ins.grown b, text_eq_comm p.buyer b, t), refl)) known wrote
          (omega arith) (All-mono _ _ db'.books (λ b h. sym (has_account b.buyer) ∙ h) owned)
          receipt_buyers (ins.ids ids) in
      let money : db.accrued + 0 ≡ db'.accrued = omega (arith, ins.accrued) in
      rw (ins.accounts, ins.receipts, ← money) settled
    where
      same : (x y : Account) → reserve_row p.total x ≡ some y → y.buyer ≡ x.buyer
      same x y e = (reserve_row-Shifted p.total x e).buyer

      spends : (x y : Account) → reserve_row p.total x ≡ some y → y.spent ≡ x.spent + 0
      spends x y e = (reserve_row-Shifted p.total x e).spent_after

  -- The writes of a new issue.
  issue_written :
      {db₁ db₂ db₃ : Db}
      → IsReady p
      → update_accounts (reserve_row p.total) (covers p.buyer p.total) db ≡ some db₁
      → any (covers p.buyer p.total) db.accounts ≡ true
      → insert_books p p.response db₁ ≡ ok db₂
      → insert_issue (issue_row p) db₂ ≡ some db₃
      → IsConserved db₃
  issue_written {db₁} {db₂} ready e₁ found e₂ e₃ =
      let stronger : (x : Account) → covers p.buyer p.total x ≡ true → of_buyer p.buyer x ≡ true =
        λ x t. ground arith in
      let (accounts', wrote, same) =
        update_accounts-inv db (reserve_row p.total) (covers p.buyer p.total) e₁ in
      let narrow =
        update_narrow (covers p.buyer p.total) (of_buyer p.buyer) stronger (reserve_row p.total)
          db.accounts (buyers p.buyer) found in
      let ins : Inserted p p.response (record db { accounts = accounts' }) db₂ =
        Returns-ok (Inserted p p.response (record db { accounts = accounts' })) _
          (insert_books-Inserted p p.response (record db { accounts = accounts' }))
          (rw (← same) e₂) in
      rw (insert_issue-inv db₂ (issue_row p) e₃) (
        issued (any_weaken (covers p.buyer p.total) (of_buyer p.buyer) stronger db.accounts found)
          (sym narrow ∙ wrote) ready ins)

  abbrev Conserved : List Issued × Db → Type 0
  Conserved r = IsConserved r.1

  issue_new-Returns : (later : ℕ) → IsReady p → Returns Conserved (issue_new p later db)
  unfolding issue_new row_count
  issue_new-Returns later ready =
      Returns-bind Conserved
        (raise_if (not (leb p.at later && ltb later (p.at + p.ttl))) (denied expired_preparing)) _
        (λ _ _.
          Returns-bind Conserved
            (raise_if (any (text_eq p.kid) db.revoked) (denied revoked_preparing)) _
            (λ _ _.
              Returns-bind Conserved
                (written (update_accounts (reserve_row p.total) (covers p.buyer p.total) db)) _
                (λ db₁ e₁.
                  Returns-bind Conserved
                    (raise_if (not (select_sum (covers p.buyer p.total) (λ _. 1) db.accounts == 1))
                      (denied no_funds))
                    _
                    (λ _ e₀. Returns-bind Conserved (insert_books p p.response db₁) _ (λ db₂ e₂.
                      Returns-bind Conserved (written (insert_issue (issue_row p) db₂)) _ (λ db₃ e₃.
                        issue_written ready (written-ok _ e₁)
                          (any-select_sum (covers p.buyer p.total) db.accounts
                            (not-false (raise_if-ok _ (denied no_funds) e₀)))
                          e₂ (written-ok _ e₃)))))))

  commit_body-Returns : (later : ℕ) → IsReady p → Returns Conserved (commit_body p later db)
  unfolding commit_body
  commit_body-Returns later ready = Returns-bind Conserved _ _ (λ earlier _.
      unless_prior-Returns IsConserved earlier (issue_new p later) db inv
        (issue_new-Returns later ready))

  pub issue_commit-IsConserved : (later : ℕ) → IsReady p → IsConserved (issue_commit p later db).1
  unfolding issue_commit
  issue_commit-IsConserved later ready =
      transaction-Returns IsConserved (commit_body p later) db inv (commit_body-Returns later ready)

-- The n-th token is of the n-th manifest: with a token for each, the response has all the units.
module _ (sha256 : Text → Text) where
  units-responses :
      (token_hex : ℕ → Text) (n : ℕ) (ts : List Text) (ms : List (List Entry))
      → length ts ≡ length ms
      → response_units (responses (draw_ids token_hex n ms) ts ms) ≡ total_units ms
  unfolding response_units responses draw_ids total_units
  units-responses token_hex n [] [] h = refl
  units-responses token_hex n [] (m ∷ ms) h = absurd (omega (arith, h))
  units-responses token_hex n (t ∷ ts) [] h = absurd (omega (arith, h))
  units-responses token_hex n (t ∷ ts) (m ∷ ms) h =
      omega (arith, units-responses token_hex (n + 1) ts ms (omega arith))

  length-all_claims :
      (a : IssueArgs) (at n : ℕ) (token_hex : ℕ → Text) (ms : List (List Entry))
      → length (all_claims sha256 a at (draw_ids token_hex n ms) ms) ≡ length ms
  unfolding all_claims draw_ids
  length-all_claims a at n token_hex [] = refl
  length-all_claims a at n token_hex (m ∷ ms) =
      omega (arith, length-all_claims a at (n + 1) token_hex ms)

signed-ok :
    (r : Result Values.Error (Text × List Text)) {x : Text × List Text}
    → signed r ≡ ok x
    → r ≡ ok (x.0, x.1)
unfolding signed
signed-ok (ok y) {x} h = let e : y ≡ x = cc in rw e
signed-ok (err e) h = cc

-- A signer that gives a token for each of the claims.
abbrev pub IsComplete : Sign → Type 0
IsComplete sign =
    (claims : List Json) (kid : Text) (tokens : List Text)
    → sign claims ≡ ok (kid, tokens)
    → length tokens ≡ length claims

pub issue_prepare-IsReady :
    (env : Issuing) (sign : Sign) (a : IssueArgs)
    → IsComplete sign
    → Returns IsReady (issue_prepare env sign a)
unfolding issue_prepare
issue_prepare-IsReady env sign a complete =
    Returns-bind IsReady (raise_if (ltb a.max_units (total_units a.manifests)) (denied over_budget))
      _
      (λ u _. Returns-bind IsReady (signed (sign given)) _ (λ r e. sym (
        units-responses env.sha256 env.token_hex 0 r.1 a.manifests (
          complete given r.0 r.1 (signed-ok (sign given) e)
          ∙ length-all_claims env.sha256 a env.at 0 env.token_hex a.manifests))))
  where
    given : List Json
    given = all_claims env.sha256 a env.at (draw_ids env.token_hex 0 a.manifests) a.manifests
