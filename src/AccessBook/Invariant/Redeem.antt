-- ===== src/AccessBook/Invariant/Redeem.antt =====
-- The four writes of a redemption, and the invariant.
use gpu_batch_crypto.Prelude.{
  ℕ, ◌+◌, ◌-◌, ◌≤◌, ◌≡◌, refl, ◌∙◌, sym, true, false, ◌&&◌, not, some, List, [], ◌∷◌, ◌++◌, Text,
  text_eq, if◌then◌else◌, arith, any, All, All-append, All-mono, text_eq_sound, text_eq_refl,
  text_eq_comm,
}
use gpu_batch_crypto.Sql.{select_first, update_where}
use gpu_batch_crypto.Sql.Laws.{select-holds, All-select, any-select_some}
use gpu_batch_crypto.Sql.Update.{
  All-update, any-update, Single-update, update-Single-total, update-total,
}
use gpu_batch_crypto.AccessBook.Tables.{
  Account, Book, Item, Redemption, Publisher, Db, of_buyer, of_id, item_key, redemption_key,
  publisher_id, redeem_row, consume_row, accrue_row,
}
use gpu_batch_crypto.AccessBook.Clearing.{sum_remaining, sum_accrued}
use gpu_batch_crypto.AccessBook.Sums.{
  sum_remaining-update, le-sum_remaining, sum_redeemed-append, sum_accrued-append,
}
use gpu_batch_crypto.AccessBook.Rows.{
  redeem_row-inv, consume_row-inv, accrue_row-inv, of_buyer-redeem_row, of_id-consume_row,
  publisher_id-accrue_row,
}
use gpu_batch_crypto.AccessBook.Outstanding.{
  outstanding, outstanding-redeem, outstanding-redeem_ne, le-outstanding,
}
use gpu_batch_crypto.AccessBook.Invariant.{
  IsBalanced, IsFunded, IsConserved, HasAccount, HasPublisher, HasBook,
}

-- A book that is open, with an item that is not redeemed, and the redemption of the item.
pub record Redeemable (db : Db) (b : Book) (i : Item) (r : Redemption) : Type 0 where
  pub found : select_first (of_id b.id) db.books ≡ some b
  pub is_open : b.closed ≡ false
  pub listed : select_first (item_key b.id i.resource) db.items ≡ some i
  pub unspent : any (redemption_key b.id i.resource) db.redemptions ≡ false
  pub same_book : r.book ≡ b.id
  pub same_resource : r.resource ≡ i.resource
  pub same_buyer : r.buyer ≡ b.buyer
  pub same_publisher : r.publisher ≡ b.publisher
  pub same_units : r.units ≡ i.units

module _ {db : Db} {b : Book} {i : Item} {r : Redemption} (inv : IsConserved db)
    (h : Redeemable db b i r) where
  pub units-le-remaining : i.units ≤ b.remaining
  units-le-remaining =
      let key = select-holds (item_key b.id i.resource) db.items h.listed in
      let book : text_eq i.book b.id ≡ true = ground (arith, key) in
      let same : i.book ≡ b.id = text_eq_sound i.book b.id book in
      let open_item : (text_eq i.book b.id
            && not (any (redemption_key i.book i.resource) db.redemptions))
          ≡ true =
        rw same (ground (arith, text_eq_refl b.id, h.unspent)) in
      let bound = le-outstanding b.id i.resource db.items db.redemptions h.listed open_item in
      omega (
        arith,
        (All-select (IsFunded db.items db.redemptions) (of_id b.id) db.books inv.funding
              h.found).when_open
            h.is_open,
        bound,
      )

  consumed : Book
  consumed = record b { remaining = b.remaining - i.units }

  consume-ok : consume_row i.units b ≡ some consumed
  unfolding consume_row consumed
  consume-ok = ground (arith, units-le-remaining)

  pub books_total :
      (books' : List Book) × (update_where (of_id b.id) (consume_row i.units) db.books
        ≡ some books')
  books_total =
      update-Single-total (of_id b.id) (consume_row i.units) db.books (inv.book_ids b.id) h.found
        consume-ok

  pub accounts_total :
      (accounts' : List Account) × (update_where (of_buyer b.buyer) (redeem_row i.units) db.accounts
        ≡ some accounts')
  accounts_total =
      update-total (IsBalanced db.books db.redemptions) (of_buyer b.buyer) (redeem_row i.units)
        db.accounts passes inv.balances
    where
      passes :
          (x : Account)
          → IsBalanced db.books db.redemptions x
          → of_buyer b.buyer x ≡ true
          → (y : Account) × (redeem_row i.units x ≡ some y)
      passes x ok t = (
        record x { reserved = x.reserved - i.units; redeemed = x.redeemed + i.units },
        unfold redeem_row in
            ground (
              arith,
              units-le-remaining,
              ok.total,
              ok.reserved,
              le-sum_remaining x.buyer b.id db.books {b = b} h.found
                  (text_eq_comm b.buyer x.buyer ∙ t),
            ),
      )

  pub publishers_total :
      (publishers' : List Publisher) × (update_where
          (publisher_id b.publisher)
          (accrue_row i.units)
          db.publishers
        ≡ some publishers')
  unfolding accrue_row
  publishers_total =
      update-total (λ (p : Publisher). p.accrued ≡ sum_accrued p.id db.redemptions)
        (publisher_id b.publisher) (accrue_row i.units) db.publishers
        (λ p _ _. (record p { accrued = p.accrued + i.units }, refl)) inv.accruals

  module _ {accounts' : List Account} {books' : List Book} {publishers' : List Publisher}
      (wrote_accounts : update_where (of_buyer b.buyer) (redeem_row i.units) db.accounts
        ≡ some accounts')
      (wrote_books : update_where (of_id b.id) (consume_row i.units) db.books ≡ some books')
      (wrote_publishers : update_where (publisher_id b.publisher) (accrue_row i.units) db.publishers
        ≡ some publishers') where
    moved :
        (buyer : Text)
        → sum_remaining buyer books' + (if text_eq b.buyer buyer then b.remaining else 0)
          ≡ sum_remaining buyer db.books
            + (if text_eq b.buyer buyer then b.remaining - i.units else 0)
    unfolding consumed
    moved buyer =
        sum_remaining-update buyer b.id (consume_row i.units) db.books (inv.book_ids b.id) h.found
          consume-ok wrote_books

    balances_after : All (IsBalanced books' (db.redemptions ++ r ∷ [])) accounts'
    balances_after =
        All-update (IsBalanced db.books db.redemptions)
          (IsBalanced books' (db.redemptions ++ r ∷ [])) (of_buyer b.buyer) (redeem_row i.units)
          db.accounts keep move inv.balances wrote_accounts
      where
        keep :
            (x : Account)
            → of_buyer b.buyer x ≡ false
            → IsBalanced db.books db.redemptions x
            → IsBalanced books' (db.redemptions ++ r ∷ []) x
        keep x t ok = ground (
          arith,
          ok.total,
          ok.reserved,
          ok.redeemed,
          moved x.buyer,
          sum_redeemed-append x.buyer db.redemptions r,
          text_eq_comm b.buyer x.buyer,
          h.same_buyer,
          t,
        )

        move :
            (x y : Account)
            → of_buyer b.buyer x ≡ true
            → redeem_row i.units x ≡ some y
            → IsBalanced db.books db.redemptions x
            → IsBalanced books' (db.redemptions ++ r ∷ []) y
        move x y t e ok = ground (
          arith,
          redeem_row-inv i.units x e,
          ok.total,
          ok.reserved,
          ok.redeemed,
          moved x.buyer,
          sum_redeemed-append x.buyer db.redemptions r,
          text_eq_comm b.buyer x.buyer,
          h.same_buyer,
          h.same_units,
          t,
          units-le-remaining,
        )

    accruals_after :
        All (λ (p : Publisher). p.accrued ≡ sum_accrued p.id (db.redemptions ++ r ∷ [])) publishers'
    accruals_after =
        All-update (λ (p : Publisher). p.accrued ≡ sum_accrued p.id db.redemptions)
          (λ (p : Publisher). p.accrued ≡ sum_accrued p.id (db.redemptions ++ r ∷ []))
          (publisher_id b.publisher) (accrue_row i.units) db.publishers
          (λ p t ok. ground (
            arith,
            ok,
            sum_accrued-append p.id db.redemptions r,
            text_eq_comm b.publisher p.id,
            h.same_publisher,
            t,
          ))
          (λ p q t e ok. ground (
            arith,
            ok,
            accrue_row-inv i.units p e,
            sum_accrued-append p.id db.redemptions r,
            text_eq_comm b.publisher p.id,
            h.same_publisher,
            h.same_units,
            t,
          ))
          inv.accruals wrote_publishers

    shrunk :
        outstanding b.id db.items (db.redemptions ++ r ∷ []) + i.units
        ≡ outstanding b.id db.items db.redemptions
    shrunk =
        outstanding-redeem b.id i.resource db.items db.redemptions r (inv.item_keys b.id i.resource)
          h.listed h.unspent h.same_book h.same_resource

    funding_after : All (IsFunded db.items (db.redemptions ++ r ∷ [])) books'
    funding_after =
        All-update (IsFunded db.items db.redemptions) (IsFunded db.items (db.redemptions ++ r ∷ []))
          (of_id b.id) (consume_row i.units) db.books keep move inv.funding wrote_books
      where
        keep :
            (x : Book)
            → of_id b.id x ≡ false
            → IsFunded db.items db.redemptions x
            → IsFunded db.items (db.redemptions ++ r ∷ []) x
        keep x t ok = record {
          when_closed = ok.when_closed;
          when_open = λ o.
              ok.when_open o
              ∙ sym (
                  outstanding-redeem_ne x.id db.items db.redemptions r
                    (ground (arith, h.same_book, text_eq_comm b.id x.id, t)));
        }

        move :
            (x y : Book)
            → of_id b.id x ≡ true
            → consume_row i.units x ≡ some y
            → IsFunded db.items db.redemptions x
            → IsFunded db.items (db.redemptions ++ r ∷ []) y
        move x y t e ok =
            let (same, taken) = consume_row-inv x i.units e in
            let at : x.id ≡ b.id = text_eq_sound x.id b.id t in
            let here : y.id ≡ b.id = ground (arith, same, at) in
            let was : y.closed ≡ x.closed = ground (arith, same) in
            record {
              when_closed = λ o. ground (arith, ok.when_closed (sym was ∙ o), taken);
              when_open =
                  λ o. rw here (ground (arith, ok.when_open (sym was ∙ o), taken, shrunk, at));
            }

    has_account : (k : Text) → any (of_buyer k) accounts' ≡ any (of_buyer k) db.accounts
    has_account k =
        any-update (of_buyer k) (of_buyer b.buyer) (redeem_row i.units) db.accounts
          (λ x y. of_buyer-redeem_row i.units x {y = y} k) wrote_accounts

    has_publisher :
        (k : Text) → any (publisher_id k) publishers' ≡ any (publisher_id k) db.publishers
    has_publisher k =
        any-update (publisher_id k) (publisher_id b.publisher) (accrue_row i.units) db.publishers
          (λ x y. publisher_id-accrue_row i.units x {y = y} k) wrote_publishers

    has_book : (k : Text) → any (of_id k) books' ≡ any (of_id k) db.books
    has_book k =
        any-update (of_id k) (of_id b.id) (consume_row i.units) db.books
          (λ x y. of_id-consume_row x {y = y} i.units k) wrote_books

    books_after :
        (P : Book → Type 0)
        → ((x : Book) (n : ℕ) → P x → P (record x { remaining = n }))
        → All P db.books
        → All P books'
    books_after P stable ok =
        All-update P P (of_id b.id) (consume_row i.units) db.books (λ x _ p. p)
          (λ x y _ e p. rw ((consume_row-inv x i.units e).0) (stable x y.remaining p)) ok
          wrote_books

    pub spend-IsConserved : IsConserved (record db {
      accounts = accounts';
      books = books';
      publishers = publishers';
      redemptions = db.redemptions ++ r ∷ [];
    })
    spend-IsConserved = record {
      balances = balances_after;
      accruals = accruals_after;
      funding = funding_after;
      book_buyers =
          All-mono (λ (x : Book). HasAccount db.accounts x.buyer) _ books'
            (λ x p. has_account x.buyer ∙ p)
            (books_after (λ x. HasAccount db.accounts x.buyer) (λ x n p. p) inv.book_buyers);
      book_publishers =
          All-mono (λ (x : Book). HasPublisher db.publishers x.publisher) _ books'
            (λ x p. has_publisher x.publisher ∙ p)
            (books_after (λ x. HasPublisher db.publishers x.publisher) (λ x n p. p)
              inv.book_publishers);
      offer_publishers =
          All-mono _ _ db.offers (λ x p. has_publisher x.publisher ∙ p) inv.offer_publishers;
      redemption_buyers =
          All-mono (λ (x : Redemption). HasAccount db.accounts x.buyer) _ (db.redemptions ++ r ∷ [])
            (λ x p. has_account x.buyer ∙ p)
            (All-append _ db.redemptions (r ∷ []) inv.redemption_buyers
              (rw (h.same_buyer) buyer_known, tt));
      redemption_publishers =
          All-mono (λ (x : Redemption). HasPublisher db.publishers x.publisher) _
            (db.redemptions ++ r ∷ []) (λ x p. has_publisher x.publisher ∙ p)
            (All-append _ db.redemptions (r ∷ []) inv.redemption_publishers
              (rw (h.same_publisher) publisher_known, tt));
      redemption_books =
          All-mono (λ (x : Redemption). HasBook db.books x.book) _ (db.redemptions ++ r ∷ [])
            (λ x p. has_book x.book ∙ p)
            (All-append _ db.redemptions (r ∷ []) inv.redemption_books
              (rw (h.same_book) book_known, tt));
      item_books =
          All-mono (λ (x : Item). HasBook db.books x.book) _ db.items (λ x p. has_book x.book ∙ p)
            inv.item_books;
      book_ids = λ k.
          Single-update (of_id k) (of_id b.id) (consume_row i.units) db.books
            (λ x y. of_id-consume_row x {y = y} i.units k) (inv.book_ids k) wrote_books;
      item_keys = inv.item_keys;
    }
      where
        buyer_known : HasAccount db.accounts b.buyer
        buyer_known =
            All-select (λ (x : Book). HasAccount db.accounts x.buyer) (of_id b.id) db.books
              inv.book_buyers h.found

        publisher_known : HasPublisher db.publishers b.publisher
        publisher_known =
            All-select (λ (x : Book). HasPublisher db.publishers x.publisher) (of_id b.id) db.books
              inv.book_publishers h.found

        book_known : HasBook db.books b.id
        book_known = any-select_some (of_id b.id) (of_id b.id) db.books h.found (text_eq_refl b.id)
