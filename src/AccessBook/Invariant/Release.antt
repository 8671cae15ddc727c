-- ===== src/AccessBook/Invariant/Release.antt =====
-- The two writes of a release, and the invariant.
use gpu_batch_crypto.Prelude.{
  ◌+◌, ◌-◌, ◌≡◌, refl, ◌∙◌, true, some, List, Text, text_eq, if◌then◌else◌, arith, any, All,
  All-mono, text_eq_comm,
}
use gpu_batch_crypto.Sql.{select_first, update_where}
use gpu_batch_crypto.Sql.Update.{
  All-update, any-update, Single-update, update-Single-total, update-total,
}
use gpu_batch_crypto.AccessBook.Tables.{Account, Book, Db, of_buyer, of_id, release_row, close_row}
use gpu_batch_crypto.AccessBook.Clearing.{sum_remaining}
use gpu_batch_crypto.AccessBook.Sums.{sum_remaining-update, le-sum_remaining}
use gpu_batch_crypto.AccessBook.Rows.{
  release_row-inv, close_row-inv, of_buyer-release_row, of_id-close_row,
}
use gpu_batch_crypto.AccessBook.Invariant.{
  IsBalanced, IsFunded, IsConserved, HasAccount, HasPublisher,
}

module _ {db : Db} {b : Book} (inv : IsConserved db)
    (found : select_first (of_id b.id) db.books ≡ some b) where
  closed : Book
  closed = record b { closed = true; remaining = 0 }

  close-ok : close_row b ≡ some closed
  unfolding close_row closed
  close-ok = refl

  pub close_total :
      (books' : List Book) × (update_where (of_id b.id) close_row db.books ≡ some books')
  close_total =
      update-Single-total (of_id b.id) close_row db.books (inv.book_ids b.id) found close-ok

  pub release_total :
      (accounts' : List Account) × (update_where
          (of_buyer b.buyer)
          (release_row b.remaining)
          db.accounts
        ≡ some accounts')
  release_total =
      update-total (IsBalanced db.books db.redemptions) (of_buyer b.buyer) (release_row b.remaining)
        db.accounts passes inv.balances
    where
      passes :
          (x : Account)
          → IsBalanced db.books db.redemptions x
          → of_buyer b.buyer x ≡ true
          → (y : Account) × (release_row b.remaining x ≡ some y)
      passes x ok t = (
        record x { reserved = x.reserved - b.remaining; available = x.available + b.remaining },
        unfold release_row in
            ground (
              arith,
              ok.total,
              ok.reserved,
              le-sum_remaining x.buyer b.id db.books {b = b} found
                  (text_eq_comm b.buyer x.buyer ∙ t),
            ),
      )

  module _ {accounts' : List Account} {books' : List Book}
      (wrote_accounts : update_where (of_buyer b.buyer) (release_row b.remaining) db.accounts
        ≡ some accounts')
      (wrote_books : update_where (of_id b.id) close_row db.books ≡ some books') where
    moved :
        (buyer : Text)
        → sum_remaining buyer books' + (if text_eq b.buyer buyer then b.remaining else 0)
          ≡ sum_remaining buyer db.books
    unfolding closed
    moved buyer =
        let e =
          sum_remaining-update buyer b.id close_row db.books (inv.book_ids b.id) found close-ok
            wrote_books in
        ground (arith, e)

    balances_after : All (IsBalanced books' db.redemptions) accounts'
    balances_after =
        All-update (IsBalanced db.books db.redemptions) (IsBalanced books' db.redemptions)
          (of_buyer b.buyer) (release_row b.remaining) db.accounts
          (λ x t ok. ground (
            arith,
            ok.total,
            ok.reserved,
            ok.redeemed,
            moved x.buyer,
            text_eq_comm b.buyer x.buyer,
            t,
          ))
          (λ x y t e ok. ground (
            arith,
            release_row-inv b.remaining x e,
            ok.total,
            ok.reserved,
            ok.redeemed,
            moved x.buyer,
            text_eq_comm b.buyer x.buyer,
            t,
          ))
          inv.balances wrote_accounts

    funding_after : All (IsFunded db.items db.redemptions) books'
    funding_after =
        All-update (IsFunded db.items db.redemptions) _ (of_id b.id) close_row db.books
          (λ x _ ok. ok)
          (λ x y _ e _.
            rw (close_row-inv x e)
              (record { when_closed = λ _. refl; when_open = λ o. absurd (cc) }))
          inv.funding wrote_books

    has_account : (k : Text) → any (of_buyer k) accounts' ≡ any (of_buyer k) db.accounts
    has_account k =
        any-update (of_buyer k) (of_buyer b.buyer) (release_row b.remaining) db.accounts
          (λ x y. of_buyer-release_row b.remaining x {y = y} k) wrote_accounts

    has_book : (k : Text) → any (of_id k) books' ≡ any (of_id k) db.books
    has_book k =
        any-update (of_id k) (of_id b.id) close_row db.books (λ x y. of_id-close_row x {y = y} k)
          wrote_books

    books_after :
        (P : Book → Type 0)
        → ((x : Book) → P x → P (record x { closed = true; remaining = 0 }))
        → All P db.books
        → All P books'
    books_after P stable ok =
        All-update P P (of_id b.id) close_row db.books (λ x _ p. p)
          (λ x y _ e p. rw (close_row-inv x e) (stable x p)) ok wrote_books

    pub release-IsConserved : IsConserved (record db { accounts = accounts'; books = books' })
    release-IsConserved = record {
      balances = balances_after;
      accruals = inv.accruals;
      funding = funding_after;
      book_buyers =
          All-mono (λ (x : Book). HasAccount db.accounts x.buyer) _ books'
            (λ x p. has_account x.buyer ∙ p)
            (books_after (λ x. HasAccount db.accounts x.buyer) (λ x p. p) inv.book_buyers);
      book_publishers =
          books_after (λ x. HasPublisher db.publishers x.publisher) (λ x p. p) inv.book_publishers;
      offer_publishers = inv.offer_publishers;
      redemption_buyers =
          All-mono _ _ db.redemptions (λ x p. has_account x.buyer ∙ p) inv.redemption_buyers;
      redemption_publishers = inv.redemption_publishers;
      redemption_books =
          All-mono _ _ db.redemptions (λ x p. has_book x.book ∙ p) inv.redemption_books;
      item_books = All-mono _ _ db.items (λ x p. has_book x.book ∙ p) inv.item_books;
      book_ids = λ k.
          Single-update (of_id k) (of_id b.id) close_row db.books
            (λ x y. of_id-close_row x {y = y} k) (inv.book_ids k) wrote_books;
      item_keys = inv.item_keys;
    }
