-- ===== src/AccessBook/Invariant/Catalog.antt =====
-- Activation, the catalog, a new account and a revoked key, and the invariant.
use mathlib.Core.Path.{subst}
use gpu_batch_crypto.Prelude.{
  ℕ, ◌≡◌, ◌∙◌, sym, true, false, some, List, [], ◌∷◌, ◌++◌, Text, text_eq, arith, any, All,
  All-mono, All-append, Bool-cases, Option-cases, inl, inr, text_eq_refl,
}
use gpu_batch_crypto.Sql.{update_where}
use gpu_batch_crypto.Sql.Laws.{any-append}
use gpu_batch_crypto.Sql.Update.{select_sum-update_same, All-update, any-update, Single-update}
use gpu_batch_crypto.AccessBook.Checks.{Offer}
use gpu_batch_crypto.AccessBook.Tables.{
  Account, Book, Publisher, Db, of_buyer, of_id, offer_key, publisher_id, activate_row,
  insert_account, replace_offer, add_publisher, add_revoked, delete_offer, update_books,
}
use gpu_batch_crypto.AccessBook.Clearing.{sum_remaining, sum_accrued}
use gpu_batch_crypto.AccessBook.Sums.{
  sum_remaining_unknown, sum_redeemed_unknown, sum_accrued_unknown,
}
use gpu_batch_crypto.AccessBook.Rows.{activate_row-inv, of_id-activate_row}
use gpu_batch_crypto.AccessBook.Invariant.{
  IsBalanced, IsFunded, IsConserved, HasAccount, HasPublisher,
}

delete_offer-All :
    (P : Offer → Type 0) (publisher resource : Text) (os : List Offer)
    → All P os
    → All P (delete_offer publisher resource os)
unfolding delete_offer
delete_offer-All P publisher resource [] h = tt
delete_offer-All P publisher resource (o ∷ os) h =
    elim (Bool-cases (offer_key publisher resource o)) [
      | inl t ↦ rw t (delete_offer-All P publisher resource os h.1)
      | inr t ↦ rw t (h.0, delete_offer-All P publisher resource os h.1)
    ]

sum_remaining_kept :
    (buyer id : Text) (books : List Book) {books' : List Book}
    → update_where (of_id id) activate_row books ≡ some books'
    → sum_remaining buyer books' ≡ sum_remaining buyer books
unfolding sum_remaining activate_row
sum_remaining_kept buyer id books h =
    select_sum-update_same (λ (b : Book). text_eq b.buyer buyer) (of_id id) (λ b. b.remaining)
      activate_row books (λ x y m. ground (arith, activate_row-inv x m)) h

module _ {db : Db} (inv : IsConserved db) where
  pub add_revoked-IsConserved : (kid : Text) → IsConserved (add_revoked kid db)
  unfolding add_revoked
  add_revoked-IsConserved kid = elim (Bool-cases (any (text_eq kid) db.revoked_keys)) [
    | inl t ↦ rw t inv
    | inr t ↦ rw t (record {
      balances = inv.balances;
      accruals = inv.accruals;
      funding = inv.funding;
      book_buyers = inv.book_buyers;
      book_publishers = inv.book_publishers;
      offer_publishers = inv.offer_publishers;
      redemption_buyers = inv.redemption_buyers;
      redemption_publishers = inv.redemption_publishers;
      redemption_books = inv.redemption_books;
      item_books = inv.item_books;
      book_ids = inv.book_ids;
      item_keys = inv.item_keys;
    })
  ]

  more_accounts :
      (a : Account) (k : Text) → HasAccount db.accounts k → HasAccount (db.accounts ++ a ∷ []) k
  more_accounts a k h = ground (arith, any-append (of_buyer k) db.accounts (a ∷ []), h)

  pub insert_account-IsConserved :
      (buyer : Text) (units : ℕ) {db' : Db}
      → insert_account buyer units db ≡ some db'
      → IsConserved db'
  unfolding insert_account
  insert_account-IsConserved buyer units {db'} h =
      let absent : any (of_buyer buyer) db.accounts ≡ false = ground arith in
      let a : Account = record {
        buyer = buyer;
        initial = units;
        available = units;
        reserved = 0;
        redeemed = 0;
      } in
      let whole : record db { accounts = db.accounts ++ a ∷ [] } ≡ db' = ground (arith, absent) in
      subst IsConserved whole (record {
        balances =
            All-append (IsBalanced db.books db.redemptions) db.accounts (a ∷ []) inv.balances (
              record {
                total = omega arith;
                reserved =
                    sym (sum_remaining_unknown db.accounts buyer db.books absent inv.book_buyers);
                redeemed = sym (
                    sum_redeemed_unknown db.accounts buyer db.redemptions absent
                      inv.redemption_buyers);
              },
              tt,
            );
        accruals = inv.accruals;
        funding = inv.funding;
        book_buyers = All-mono _ _ db.books (λ x p. more_accounts a x.buyer p) inv.book_buyers;
        book_publishers = inv.book_publishers;
        offer_publishers = inv.offer_publishers;
        redemption_buyers =
            All-mono _ _ db.redemptions (λ x p. more_accounts a x.buyer p) inv.redemption_buyers;
        redemption_publishers = inv.redemption_publishers;
        redemption_books = inv.redemption_books;
        item_books = inv.item_books;
        book_ids = inv.book_ids;
        item_keys = inv.item_keys;
      })

  -- The catalog, where its new offer's publisher gets a row first.
  publisher_row : (id : Text) → HasPublisher (add_publisher id db).publishers id
  unfolding add_publisher
  publisher_row id = ground (
    arith,
    any-append (publisher_id id) db.publishers (record { id = id; accrued = 0 } ∷ []),
    text_eq_refl id,
  )

  more_publishers :
      (id k : Text) → HasPublisher db.publishers k → HasPublisher (add_publisher id db).publishers k
  unfolding add_publisher
  more_publishers id k h =
      ground
        (arith, any-append (publisher_id k) db.publishers (record { id = id; accrued = 0 } ∷ []), h)

  set_offer-parts :
      (o : Offer)
      → add_publisher o.publisher (replace_offer o db)
        ≡ record (replace_offer o db) { publishers = (add_publisher o.publisher db).publishers }
  unfolding replace_offer add_publisher
  set_offer-parts o = elim (Bool-cases (any (publisher_id o.publisher) db.publishers)) [
    | inl t ↦ rw t
    | inr t ↦ rw t
  ]

  accruals_after :
      (id : Text)
      → All
          (λ (p : Publisher). p.accrued ≡ sum_accrued p.id db.redemptions)
          (add_publisher id db).publishers
  unfolding add_publisher
  accruals_after id = elim (Bool-cases (any (publisher_id id) db.publishers)) [
    | inl t ↦ rw t inv.accruals
    | inr t ↦ rw t (
        All-append _ db.publishers (record { id = id; accrued = 0 } ∷ []) inv.accruals (
          sym (sum_accrued_unknown db.publishers id db.redemptions t inv.redemption_publishers),
          tt,
        ))
  ]

  pub set_offer-IsConserved :
      (o : Offer) → IsConserved (add_publisher o.publisher (replace_offer o db))
  unfolding replace_offer
  set_offer-IsConserved o = rw (set_offer-parts o) (record {
    balances = inv.balances;
    accruals = accruals_after o.publisher;
    funding = inv.funding;
    book_buyers = inv.book_buyers;
    book_publishers =
        All-mono _ _ db.books (λ x p. more_publishers o.publisher x.publisher p)
          inv.book_publishers;
    offer_publishers =
        All-append _ (delete_offer o.publisher o.resource db.offers) (o ∷ [])
          (delete_offer-All _ o.publisher o.resource db.offers (
            All-mono _ _ db.offers (λ x p. more_publishers o.publisher x.publisher p)
              inv.offer_publishers))
          (publisher_row o.publisher, tt);
    redemption_buyers = inv.redemption_buyers;
    redemption_publishers =
        All-mono _ _ db.redemptions (λ x p. more_publishers o.publisher x.publisher p)
          inv.redemption_publishers;
    redemption_books = inv.redemption_books;
    item_books = inv.item_books;
    book_ids = inv.book_ids;
    item_keys = inv.item_keys;
  })

  -- An activation changes no column that the invariant reads.
  pub activate-IsConserved :
      (id : Text) {db' : Db} → update_books activate_row id db ≡ some db' → IsConserved db'
  unfolding update_books
  activate-IsConserved id {db'} h =
      elim (Option-cases (update_where (of_id id) activate_row db.books)) [
        | inl e ↦ absurd (ground (arith, e))
        | inr (books', e) ↦ subst IsConserved (activated books' e) (kept books' e)
      ]
    where
      activated :
          (books' : List Book)
          → update_where (of_id id) activate_row db.books ≡ some books'
          → record db { books = books' } ≡ db'
      activated books' e = ground (arith, e)

      books_after :
          (P : Book → Type 0) (books' : List Book)
          → update_where (of_id id) activate_row db.books ≡ some books'
          → ((x : Book) → P x → P (record x { active = true }))
          → All P db.books
          → All P books'
      books_after P books' e stable ok =
          All-update P P (of_id id) activate_row db.books (λ x _ p. p)
            (λ x y _ m p. rw (activate_row-inv x m) (stable x p)) ok e

      has_book :
          (books' : List Book)
          → update_where (of_id id) activate_row db.books ≡ some books'
          → (k : Text) → any (of_id k) books' ≡ any (of_id k) db.books
      has_book books' e k =
          any-update (of_id k) (of_id id) activate_row db.books
            (λ x y. of_id-activate_row x {y = y} k) e

      kept :
          (books' : List Book)
          → update_where (of_id id) activate_row db.books ≡ some books'
          → IsConserved (record db { books = books' })
      kept books' e = record {
        balances =
            All-mono _ _ db.accounts
              (λ a ok. record {
                total = ok.total;
                reserved = ok.reserved ∙ sym (sum_remaining_kept a.buyer id db.books e);
                redeemed = ok.redeemed;
              })
              inv.balances;
        accruals = inv.accruals;
        funding =
            books_after (IsFunded db.items db.redemptions) books' e
              (λ x ok. record { when_closed = ok.when_closed; when_open = ok.when_open })
              inv.funding;
        book_buyers =
            books_after (λ x. HasAccount db.accounts x.buyer) books' e (λ x p. p) inv.book_buyers;
        book_publishers =
            books_after (λ x. HasPublisher db.publishers x.publisher) books' e (λ x p. p)
              inv.book_publishers;
        offer_publishers = inv.offer_publishers;
        redemption_buyers = inv.redemption_buyers;
        redemption_publishers = inv.redemption_publishers;
        redemption_books =
            All-mono _ _ db.redemptions (λ x p. has_book books' e x.book ∙ p) inv.redemption_books;
        item_books = All-mono _ _ db.items (λ x p. has_book books' e x.book ∙ p) inv.item_books;
        book_ids = λ k.
            Single-update (of_id k) (of_id id) activate_row db.books
              (λ x y. of_id-activate_row x {y = y} k) (inv.book_ids k) e;
        item_keys = inv.item_keys;
      }
