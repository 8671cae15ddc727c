-- ===== src/HttpAccess/Granted.antt =====
-- What a new spending needs and does (`Ledger.spend` of examples/http_access/ledger.py).
use gpu_batch_crypto.Prelude.{
  ◌+◌, ◌≤◌, ◌<◌, ◌≡◌, refl, inl, inr, true, false, not, Option, none, some, [], ◌∷◌, ◌++◌, Text,
  text_eq, ok, raise_if, raise_if-ok, ltb_false→le, Returns, Returns-bind, Returns-ok, ltb, ◌==◌,
  arith, any, Option-cases,
}
use gpu_batch_crypto.Sql.{select_first}
use gpu_batch_crypto.HttpAccess.Checks.{denied, over_budget, no_funds}
use gpu_batch_crypto.HttpAccess.Tables.{
  Book, Item, Receipt, Db, of_buyer, of_owner, covers, item_key, receipt_key, buy_row, spend_row,
  consume_row, update_accounts, update_books, insert_receipt, accrue,
}
use gpu_batch_crypto.HttpAccess.Ledger.{
  Clearing, SpendArgs, written, is_usable, in_scope, check_book, charge, receipt_row, new_receipt,
  spend_new, row_count,
}
use gpu_batch_crypto.HttpAccess.Bodies.{
  written-ok, written-Returns, update_accounts-inv, update_books-inv, insert_receipt-inv,
}

-- The book that a spending draws on.
pub record Usable (env : Clearing) (a : SpendArgs) (book : Text) (db : Db) : Type 0 where
  pub row : Book
  pub item : Item
  pub owned : select_first (of_owner book a.buyer) db.books ≡ some row
  pub presented : is_usable row a.token ≡ true
  pub started : row.issued ≤ env.now
  pub running : env.now < row.expires
  pub trusted : any (text_eq row.kid) db.revoked ≡ false
  pub listed : select_first (item_key book a.resource) db.items ≡ some item
  pub as_offered : in_scope item a.offer ≡ true
  pub unspent : any (receipt_key book a.resource) db.receipts ≡ false

check_book-Usable :
    (env : Clearing) (a : SpendArgs) (book : Text) (db : Db) {u : Unit {0}}
    → check_book env a book db ≡ ok u
    → Usable env a book db
unfolding check_book
check_book-Usable env a book db h =
    elim (Option-cases (select_first (of_owner book a.buyer) db.books)) [
      | inl e ↦ absurd (ground (arith, e))
      | inr (b, e) ↦ elim (Option-cases (select_first (item_key book a.resource) db.items)) [
        | inl e' ↦ absurd (ground (arith, e, e'))
        | inr (i, e') ↦ record {
          row = b;
          item = i;
          owned = e;
          presented = ground (arith, e, e');
          started = ground (arith, e, e');
          running = ground (arith, e, e');
          trusted = ground (arith, e, e');
          listed = e';
          as_offered = ground (arith, e, e');
          unspent = ground (arith, e, e');
        }
      ]
    ]

-- A new spending: what it needed, and what it left.
pub record Granted (env : Clearing) (a : SpendArgs) (db : Db) (x : Receipt × Db) : Type 0 where
  pub receipt : x.0 ≡ new_receipt env a
  pub within : a.offer.units ≤ a.max_units
  pub from_book : (book : Text) → a.book ≡ some book → Usable env a book db
  pub stored : x.1.receipts ≡ db.receipts ++ receipt_row env a ∷ []
  pub paid : x.1.accrued ≡ db.accrued + a.offer.units

-- What the charge leaves alone.
record Charge (env : Clearing) (a : SpendArgs) (book : Option Text) (db db' : Db) : Type 0 where
  usable : (id : Text) → book ≡ some id → Usable env a id db
  receipts : db'.receipts ≡ db.receipts
  accrued : db'.accrued ≡ db.accrued

module _ (env : Clearing) (a : SpendArgs) (db : Db) where
  charge-Charge : (book : Option Text) → Returns (Charge env a book db) (charge env a book db)
  unfolding charge
  charge-Charge none =
      Returns-bind (Charge env a none db)
        (written (update_accounts (buy_row a.offer.units) (covers a.buyer a.offer.units) db)) _
        (λ db₁ e₁.
          Returns-bind (Charge env a none db)
            (raise_if (not (row_count (covers a.buyer a.offer.units) db.accounts == 1))
              (denied no_funds))
            _
            (λ _ _.
              let (_, _, same) =
                update_accounts-inv db (buy_row a.offer.units) (covers a.buyer a.offer.units)
                  (written-ok _ e₁) in
              rw same (record { usable = λ id h. absurd (cc); receipts = refl; accrued = refl })))
  charge-Charge (some book) =
      Returns-bind (Charge env a (some book) db) (check_book env a book db) _ (λ u e₀.
        Returns-bind (Charge env a (some book) db)
          (written (update_books (consume_row a.offer.units) book db)) _
          (λ db₁ e₁. written-Returns (Charge env a (some book) db) _ (λ db₂ e₂.
            let (_, _, s₁) =
              update_books-inv db (consume_row a.offer.units) book (written-ok _ e₁) in
            let (_, _, s₂) =
              update_accounts-inv db₁ (spend_row a.offer.units) (of_buyer a.buyer) e₂ in
            record {
              usable = λ id h.
                  let same : book ≡ id = cc in rw (← same) (check_book-Usable env a book db e₀);
              receipts = ground (arith, s₁, s₂);
              accrued = ground (arith, s₁, s₂);
            })))

  granted :
      {db₁ db₂ : Db}
      → a.offer.units ≤ a.max_units
      → Charge env a (a.book) db db₁
      → db₂ ≡ record db₁ { receipts = db₁.receipts ++ receipt_row env a ∷ [] }
      → Granted env a db (new_receipt env a, accrue a.offer.units db₂)
  unfolding accrue
  granted fits c same = record {
    receipt = refl;
    within = fits;
    from_book = c.usable;
    stored = ground (arith, same, c.receipts);
    paid = ground (arith, same, c.accrued);
  }

  pub spend_new-Granted : Returns (Granted env a db) (spend_new env a db)
  unfolding spend_new
  spend_new-Granted =
      Returns-bind (Granted env a db)
        (raise_if (ltb a.max_units a.offer.units) (denied over_budget)) _
        (λ _ e₀. Returns-bind (Granted env a db) (charge env a a.book db) _ (λ db₁ e₁.
          Returns-bind (Granted env a db) (written (insert_receipt (receipt_row env a) db₁)) _
            (λ db₂ e₂.
              let c = Returns-ok (Charge env a (a.book) db) _ (charge-Charge a.book) e₁ in
              let (_, same) = insert_receipt-inv db₁ (receipt_row env a) (written-ok _ e₂) in
              granted (ltb_false→le _ _ (raise_if-ok _ (denied over_budget) e₀)) c same)))
