-- ===== src/HttpAccess/Conserve/Spend.antt =====
-- The transaction of `spend`, and the invariant.
use gpu_batch_crypto.Prelude.{
  ◌+◌, ◌≡◌, refl, sym, ◌∙◌, inl, inr, true, not, Option, none, some, List, [], ◌∷◌, ◌++◌, Text,
  text_eq, ok, raise_if, raise_if-ok, not-false, Returns, Returns-bind, Returns-ok, ltb, ◌==◌,
  if◌then◌else◌, arith, any, All, All-append, Option-cases, text_eq_sound, text_eq_comm,
}
use gpu_batch_crypto.Sql.{select_first, select_sum, update_where}
use gpu_batch_crypto.Sql.Laws.{select-holds, select-weaken, All-select, select_sum-append}
use gpu_batch_crypto.Sql.Update.{All-update, Single-update, select_sum-update}
use gpu_batch_crypto.Sql.Narrow.{update_narrow, any_weaken, any-select_sum, update-some}
use gpu_batch_crypto.HttpAccess.Checks.{Catalog, denied, over_budget, no_funds}
use gpu_batch_crypto.HttpAccess.Tables.{
  Account, Book, Spending, Receipt, Db, of_buyer, of_id, of_owner, covers, buy_row, spend_row,
  consume_row, update_accounts, update_books, insert_receipt, accrue,
}
use gpu_batch_crypto.HttpAccess.Ledger.{
  Clearing, SpendArgs, SpendRequest, check_spend, written, check_book, charge, receipt_row,
  spend_new, spend_body, spend, row_count, sum_remaining, sum_redeemed, sum_units,
}
use gpu_batch_crypto.HttpAccess.Rows.{
  buy_row-Shifted, spend_row-Shifted, consume_row-inv, of_id-consume_row,
}
use gpu_batch_crypto.HttpAccess.Invariant.{IsSettled, IsConserved, HasAccount, rebalance}
use gpu_batch_crypto.HttpAccess.Bodies.{
  written-ok, written-Returns, transaction-Returns, unless_prior-Returns, with_args-keeps,
  update_accounts-inv, update_books-inv, insert_receipt-inv,
}

-- A receipt adds its units to the sums.
module _ (receipts : List Spending) (r : Spending) where
  sum_redeemed-append :
      (b : Text)
      → sum_redeemed b (receipts ++ r ∷ [])
        ≡ sum_redeemed b receipts + (if text_eq r.buyer b then r.units else 0)
  unfolding sum_redeemed select_sum
  sum_redeemed-append b = omega (
    arith,
    select_sum-append (λ (r : Spending). text_eq r.buyer b) (λ r. r.units) receipts (r ∷ []),
  )

  sum_units-append : sum_units (receipts ++ r ∷ []) ≡ sum_units receipts + r.units
  unfolding sum_units select_sum
  sum_units-append =
      omega (arith, select_sum-append (λ _. true) (λ (r : Spending). r.units) receipts (r ∷ []))

module _ (db : Db) (inv : IsConserved db) (r : Spending) where
  open inv use {buyers, book_buyers, receipt_buyers, ids}

  -- Bought from the balance.
  bought :
      {accounts' : List Account}
      → HasAccount db.accounts r.buyer
      → update_where (of_buyer r.buyer) (buy_row r.units) db.accounts ≡ some accounts'
      → IsSettled accounts' db.books (db.receipts ++ r ∷ []) (db.accrued + r.units)
  bought known wrote =
      rebalance inv r.buyer (buy_row r.units) r.units db.books (db.receipts ++ r ∷ [])
        (λ x y e. (buy_row-Shifted r.units x e).buyer)
        (λ x y e. (buy_row-Shifted r.units x e).spent_after)
        (λ x y t e ok.
          let s = buy_row-Shifted r.units x e in
          record {
            total = s.total;
            reserved = ground (arith, s.buyer, s.reserved_after, ok.reserved);
            spent = ground (
              arith,
              s.buyer,
              s.spent_after,
              ok.spent,
              sum_redeemed-append db.receipts r x.buyer,
              text_eq_comm r.buyer x.buyer,
              t,
            );
          })
        (λ b t.
          (refl, ground (arith, sum_redeemed-append db.receipts r b, text_eq_comm r.buyer b, t)))
        known wrote (sum_units-append db.receipts r) book_buyers
        (All-append _ db.receipts (r ∷ []) receipt_buyers (known, tt)) ids

  -- Spent from a book of the buyer.
  module _ (b : Book) (found : select_first (of_id b.id) db.books ≡ some b)
      (owner : b.buyer ≡ r.buyer) {books' : List Book}
      (consumed : update_where (of_id b.id) (consume_row r.units) db.books ≡ some books') where
    moved :
        (k : Text)
        → sum_remaining k books' + (if text_eq r.buyer k then r.units else 0)
          ≡ sum_remaining k db.books
    unfolding sum_remaining
    moved k =
        let (b', passed) = update-some (of_id b.id) (consume_row r.units) db.books found consumed in
        ground (
          arith,
          owner,
          consume_row-inv b r.units passed,
          select_sum-update (λ (x : Book). text_eq x.buyer k) (of_id b.id) (λ x. x.remaining)
              (consume_row r.units) db.books (ids b.id) found passed consumed,
        )

    still_owned : All (λ (x : Book). HasAccount db.accounts x.buyer) books'
    still_owned =
        All-update (λ (x : Book). HasAccount db.accounts x.buyer) _ (of_id b.id)
          (consume_row r.units) db.books (λ x _ h. h)
          (λ x y _ e h. rw ((consume_row-inv x r.units e).0) h) book_buyers consumed

    pub used :
        {accounts' : List Account}
        → update_where (of_buyer r.buyer) (spend_row r.units) db.accounts ≡ some accounts'
        → IsSettled accounts' books' (db.receipts ++ r ∷ []) (db.accrued + r.units)
    used wrote =
        let known : HasAccount db.accounts r.buyer = rw (← owner) (
          All-select (λ (x : Book). HasAccount db.accounts x.buyer) (of_id b.id) db.books
            book_buyers found) in
        rebalance inv r.buyer (spend_row r.units) r.units books' (db.receipts ++ r ∷ [])
          (λ x y e. (spend_row-Shifted r.units x e).buyer)
          (λ x y e. (spend_row-Shifted r.units x e).spent_after)
          (λ x y t e ok.
            let s = spend_row-Shifted r.units x e in
            record {
              total = s.total;
              reserved = ground (
                arith,
                s.buyer,
                s.reserved_after,
                ok.reserved,
                moved x.buyer,
                text_eq_comm r.buyer x.buyer,
                t,
              );
              spent = ground (
                arith,
                s.buyer,
                s.spent_after,
                ok.spent,
                sum_redeemed-append db.receipts r x.buyer,
                text_eq_comm r.buyer x.buyer,
                t,
              );
            })
          (λ k t. (
            ground (arith, moved k, text_eq_comm r.buyer k, t),
            ground (arith, sum_redeemed-append db.receipts r k, text_eq_comm r.buyer k, t),
          ))
          known wrote (sum_units-append db.receipts r) still_owned
          (All-append _ db.receipts (r ∷ []) receipt_buyers (known, tt))
          (λ k.
            Single-update (of_id k) (of_id b.id) (consume_row r.units) db.books
              (λ x y. of_id-consume_row x {y = y} r.units k) (ids k) consumed)

-- What the charge has done when its receipt is still to be written.
record Charged (r : Spending) (db db' : Db) : Type 0 where
  settled : IsSettled db'.accounts db'.books (db.receipts ++ r ∷ []) (db.accrued + r.units)
  same_receipts : db'.receipts ≡ db.receipts
  same_accrued : db'.accrued ≡ db.accrued

module _ (env : Clearing) (a : SpendArgs) (db : Db) (inv : IsConserved db) where
  row : Spending
  row = receipt_row env a

  balance-Charged :
      {db₁ : Db}
      → update_accounts (buy_row a.offer.units) (covers a.buyer a.offer.units) db ≡ some db₁
      → any (covers a.buyer a.offer.units) db.accounts ≡ true
      → Charged row db db₁
  unfolding row receipt_row
  balance-Charged {db₁} e found =
      let stronger : (x : Account)
          → covers a.buyer a.offer.units x ≡ true
          → of_buyer a.buyer x ≡ true =
        λ x t. ground arith in
      let (accounts', wrote, same) =
        update_accounts-inv db (buy_row a.offer.units) (covers a.buyer a.offer.units) e in
      let narrow =
        update_narrow (covers a.buyer a.offer.units) (of_buyer a.buyer) stronger
          (buy_row a.offer.units) db.accounts (inv.buyers a.buyer) found in
      rw same (record {
        settled =
            bought db inv (receipt_row env a)
              (any_weaken (covers a.buyer a.offer.units) (of_buyer a.buyer) stronger db.accounts
                found)
              (sym narrow ∙ wrote);
        same_receipts = refl;
        same_accrued = refl;
      })

  -- A book that passed the checks is a row of the buyer's.
  check_book-owned :
      (book : Text) {u : Unit {0}}
      → check_book env a book db ≡ ok u
      → (b : Book) × (select_first (of_owner book a.buyer) db.books ≡ some b)
  unfolding check_book
  check_book-owned book h = elim (Option-cases (select_first (of_owner book a.buyer) db.books)) [
    | inl e ↦ absurd (ground (arith, e))
    | inr (b, e) ↦ (b, e)
  ]

  book-Charged :
      (book : Text) (b : Book) {db₁ db₂ : Db}
      → select_first (of_owner book a.buyer) db.books ≡ some b
      → update_books (consume_row a.offer.units) book db ≡ some db₁
      → update_accounts (spend_row a.offer.units) (of_buyer a.buyer) db₁ ≡ some db₂
      → Charged row db db₂
  unfolding row receipt_row
  book-Charged book b {db₁} {db₂} owned e₁ e₂ =
      let key = select-holds (of_owner book a.buyer) db.books owned in
      let id : b.id ≡ book = text_eq_sound b.id book (ground (arith, key)) in
      let found : select_first (of_id book) db.books ≡ some b =
        select-weaken (of_id book) (of_owner book a.buyer) db.books (inv.ids book)
          (λ x t. ground arith) owned in
      let (books', consumed, s₁) = update_books-inv db (consume_row a.offer.units) book e₁ in
      let (accounts', wrote, s₂) =
        update_accounts-inv db₁ (spend_row a.offer.units) (of_buyer a.buyer) e₂ in
      let before : db₁.accounts ≡ db.accounts = ground (arith, s₁) in
      rw (s₂, s₁)
        (record {
          settled =
              used db inv (receipt_row env a) b (rw (← id) at found)
                (text_eq_sound b.buyer a.buyer (ground (arith, key))) (rw (← id) at consumed)
                (rw (← before) wrote);
          same_receipts = refl;
          same_accrued = refl;
        })

  charge-Returns : (book : Option Text) → Returns (Charged row db) (charge env a book db)
  unfolding charge check_book row_count
  charge-Returns none =
      Returns-bind (Charged row db)
        (written (update_accounts (buy_row a.offer.units) (covers a.buyer a.offer.units) db)) _
        (λ db₁ e₁.
          Returns-bind (Charged row db)
            (raise_if (not (select_sum (covers a.buyer a.offer.units) (λ _. 1) db.accounts == 1))
              (denied no_funds))
            _
            (λ _ e₀. balance-Charged (written-ok _ e₁) (
              any-select_sum (covers a.buyer a.offer.units) db.accounts
                (not-false (raise_if-ok _ (denied no_funds) e₀)))))
  charge-Returns (some book) = Returns-bind (Charged row db) (check_book env a book db) _ (λ _ e₀.
      Returns-bind (Charged row db) (written (update_books (consume_row a.offer.units) book db)) _
        (λ db₁ e₁.
          let (b, owned) = check_book-owned book e₀ in
          written-Returns (Charged row db) _
            (λ db₂ e₂. book-Charged book b owned (written-ok _ e₁) e₂)))

  abbrev Conserved : Receipt × Db → Type 0
  Conserved x = IsConserved x.1

  received :
      {db₁ db₂ : Db}
      → Charged row db db₁
      → insert_receipt row db₁ ≡ some db₂
      → IsConserved (accrue a.offer.units db₂)
  unfolding accrue row receipt_row
  received {db₁} h e =
      let (_, same) = insert_receipt-inv db₁ (receipt_row env a) e in
      rw (same, h.same_receipts, h.same_accrued) (h.settled)

  spend_new-Returns : Returns Conserved (spend_new env a db)
  unfolding spend_new row
  spend_new-Returns =
      Returns-bind Conserved (raise_if (ltb a.max_units a.offer.units) (denied over_budget)) _
        (λ _ _. Returns-bind Conserved (charge env a a.book db) _ (λ db₁ e₁.
          Returns-bind Conserved (written (insert_receipt (receipt_row env a) db₁)) _ (λ db₂ e₂.
            received (Returns-ok (Charged (receipt_row env a) db) _ (charge-Returns a.book) e₁)
              (written-ok _ e₂))))

  spend_body-Returns : Returns Conserved (spend_body env a db)
  unfolding spend_body
  spend_body-Returns = Returns-bind Conserved _ _ (λ earlier _.
      unless_prior-Returns IsConserved earlier (spend_new env a) db inv spend_new-Returns)

pub spend-IsConserved :
    (env : Clearing) (catalog : Catalog) (r : SpendRequest) (db : Db)
    → IsConserved db
    → IsConserved (spend env catalog r db).1
unfolding spend
spend-IsConserved env catalog r db inv =
    with_args-keeps IsConserved (check_spend env.sha256 catalog r) _ db inv (λ a _.
      transaction-Returns IsConserved (spend_body env a) db inv (spend_body-Returns env a db inv))
