-- ===== src/AccessBook/Invariant/Issue.antt =====
-- The three writes of an issue, and the invariant.
use mathlib.Core.List.{append-nil, append_assoc}
use mathlib.Core.Path.{subst}
use gpu_batch_crypto.Prelude.{
  ◌≡◌, ◌∙◌, true, false, some, List, [], ◌∷◌, ◌++◌, map, Text, text_eq, arith, any, All, All-append,
  All-mono, All-mono₂, All-any-false, Bool-cases, inl, inr, text_eq_sound, text_eq_refl,
  text_eq_comm,
}
use gpu_batch_crypto.Sql.{update_where}
use gpu_batch_crypto.Sql.Laws.{Single, Single-append, any-append}
use gpu_batch_crypto.Sql.Update.{All-update, any-update}
use gpu_batch_crypto.AccessBook.Checks.{Offer}
use gpu_batch_crypto.AccessBook.Tables.{
  Account, Book, Item, Redemption, Db, of_buyer, of_id, item_key, reserve_row, insert_item,
  insert_items,
}
use gpu_batch_crypto.AccessBook.Clearing.{total_units, to_item}
use gpu_batch_crypto.AccessBook.Sums.{sum_remaining-append}
use gpu_batch_crypto.AccessBook.Rows.{reserve_row-inv, of_buyer-reserve_row}
use gpu_batch_crypto.AccessBook.Outstanding.{
  outstanding-append, outstanding_fresh, outstanding_new, outstanding_other,
}
use gpu_batch_crypto.AccessBook.Invariant.{
  IsBalanced, IsFunded, IsConserved, HasAccount, HasPublisher, HasBook,
}

-- The first insertion of several.
insert_items-cons :
    (i : Item) (new : List Item) (db : Db) {db' : Db}
    → insert_items (i ∷ new) db ≡ some db'
    → (any (item_key i.book i.resource) db.items ≡ false)
      × (any (of_id i.book) db.books ≡ true)
      × (insert_items new (record db { items = db.items ++ i ∷ [] }) ≡ some db')
unfolding insert_items insert_item
insert_items-cons i new db {db'} h = (ground arith, ground arith, ground arith)

pub insert_items-items :
    (new : List Item) (db : Db) {db' : Db}
    → insert_items new db ≡ some db'
    → db' ≡ record db { items = db.items ++ new }
unfolding insert_items
insert_items-items [] db {db'} h = let e : some db ≡ some db' = h in rw append-nil (cc)
insert_items-items (i ∷ new) db {db'} h =
    let (_, _, rest) = insert_items-cons i new db h in
    rw (← append_assoc db.items (i ∷ []) new)
      (insert_items-items new (record db { items = db.items ++ i ∷ [] }) rest)

pub insert_items-keys :
    (new : List Item) (db : Db) {db' : Db} (book resource : Text)
    → insert_items new db ≡ some db'
    → Single (item_key book resource) db.items
    → Single (item_key book resource) db'.items
unfolding insert_items
insert_items-keys [] db {db'} book resource h s = let e : db ≡ db' = cc in rw (← e) s
insert_items-keys (i ∷ new) db book resource h s =
    let (absent, _, rest) = insert_items-cons i new db h in
    insert_items-keys new (record db { items = db.items ++ i ∷ [] }) book resource rest
      (Single-append (item_key book resource) db.items i s (λ t.
        let b : i.book ≡ book = text_eq_sound i.book book (ground arith) in
        let r : i.resource ≡ resource = text_eq_sound i.resource resource (ground arith) in
        rw (← b, ← r) absent))

module _ {db : Db} (inv : IsConserved db) (b : Book) (offers : List Offer)
    {accounts' : List Account} (is_new : any (of_id b.id) db.books ≡ false)
    (is_open : b.closed ≡ false) (funded : b.remaining ≡ total_units offers)
    (known_publisher : HasPublisher db.publishers b.publisher)
    (wrote_accounts : update_where (of_buyer b.buyer) (reserve_row (total_units offers)) db.accounts
      ≡ some accounts')
    (known_buyer : any (of_buyer b.buyer) accounts' ≡ true) where
  -- Rows that refer to a book refer to another one.
  other_book : (id : Text) → HasBook db.books id → text_eq id b.id ≡ false
  other_book id h = elim (Bool-cases (text_eq id b.id)) [
    | inl t ↦
        let e : any (of_id b.id) db.books ≡ true =
          subst (HasBook db.books) (text_eq_sound id b.id t) h in
        cc
    | inr t ↦ t
  ]

  balances_after : All (IsBalanced (db.books ++ b ∷ []) db.redemptions) accounts'
  balances_after =
      All-update (IsBalanced db.books db.redemptions)
        (IsBalanced (db.books ++ b ∷ []) db.redemptions) (of_buyer b.buyer)
        (reserve_row (total_units offers)) db.accounts
        (λ x t ok. ground (
          arith,
          ok.total,
          ok.reserved,
          ok.redeemed,
          sum_remaining-append x.buyer db.books b,
          text_eq_comm b.buyer x.buyer,
          t,
        ))
        (λ x y t e ok. ground (
          arith,
          reserve_row-inv (total_units offers) x e,
          ok.total,
          ok.reserved,
          ok.redeemed,
          sum_remaining-append x.buyer db.books b,
          text_eq_comm b.buyer x.buyer,
          t,
          funded,
        ))
        inv.balances wrote_accounts

  fresh_items : All (λ (i : Item). text_eq i.book b.id ≡ false) db.items
  fresh_items = All-mono _ _ db.items (λ i h. other_book i.book h) inv.item_books

  fresh_redemptions : All (λ (r : Redemption). text_eq r.book b.id ≡ false) db.redemptions
  fresh_redemptions = All-mono _ _ db.redemptions (λ r h. other_book r.book h) inv.redemption_books

  funding_after :
      All (IsFunded (db.items ++ map (to_item b.id) offers) db.redemptions) (db.books ++ b ∷ [])
  funding_after =
      All-append (IsFunded (db.items ++ map (to_item b.id) offers) db.redemptions) db.books (b ∷ [])
        (All-mono₂ (IsFunded db.items db.redemptions) (λ (x : Book). text_eq x.id b.id ≡ false) _
          db.books old inv.funding (All-any-false (of_id b.id) db.books is_new))
        (new, tt)
    where
      old :
          (x : Book)
          → IsFunded db.items db.redemptions x
          → text_eq x.id b.id ≡ false
          → IsFunded (db.items ++ map (to_item b.id) offers) db.redemptions x
      old x ok ne = record {
        when_closed = ok.when_closed;
        when_open = λ o. omega (
          arith,
          ok.when_open o,
          outstanding-append x.id db.items (map (to_item b.id) offers) db.redemptions,
          outstanding_other b.id x.id offers db.redemptions (text_eq_comm b.id x.id ∙ ne),
        );
      }

      new : IsFunded (db.items ++ map (to_item b.id) offers) db.redemptions b
      new = record {
        when_closed = λ c. absurd (cc);
        when_open = λ o. omega (
          arith,
          funded,
          outstanding-append b.id db.items (map (to_item b.id) offers) db.redemptions,
          outstanding_fresh b.id db.items db.redemptions fresh_items,
          outstanding_new b.id offers db.redemptions fresh_redemptions,
        );
      }

  has_account : (k : Text) → any (of_buyer k) accounts' ≡ any (of_buyer k) db.accounts
  has_account k =
      any-update (of_buyer k) (of_buyer b.buyer) (reserve_row (total_units offers)) db.accounts
        (λ x y. of_buyer-reserve_row (total_units offers) x {y = y} k) wrote_accounts

  has_book : (k : Text) → HasBook db.books k → HasBook (db.books ++ b ∷ []) k
  has_book k h = ground (arith, any-append (of_id k) db.books (b ∷ []), h)

  has_new_book : HasBook (db.books ++ b ∷ []) b.id
  has_new_book = ground (arith, any-append (of_id b.id) db.books (b ∷ []), text_eq_refl b.id)

  new_items :
      (os : List Offer)
      → All (λ (i : Item). HasBook (db.books ++ b ∷ []) i.book) (map (to_item b.id) os)
  unfolding to_item
  new_items [] = tt
  new_items (o ∷ os) = (has_new_book, new_items os)

  -- The key of the new book is new.
  ids_after : (k : Text) → Single (of_id k) (db.books ++ b ∷ [])
  ids_after k =
      Single-append (of_id k) db.books b (inv.book_ids k)
        (λ t. rw (← text_eq_sound b.id k t) is_new)

  pub issue-IsConserved :
      ((book resource : Text)
        → Single (item_key book resource) (db.items ++ map (to_item b.id) offers))
      → IsConserved (record db {
        accounts = accounts';
        books = db.books ++ b ∷ [];
        items = db.items ++ map (to_item b.id) offers;
      })
  issue-IsConserved keys = record {
    balances = balances_after;
    accruals = inv.accruals;
    funding = funding_after;
    book_buyers =
        All-append (λ (x : Book). HasAccount accounts' x.buyer) db.books (b ∷ [])
          (All-mono _ _ db.books (λ x h. has_account x.buyer ∙ h) inv.book_buyers)
          (known_buyer, tt);
    book_publishers = All-append _ db.books (b ∷ []) inv.book_publishers (known_publisher, tt);
    offer_publishers = inv.offer_publishers;
    redemption_buyers =
        All-mono _ _ db.redemptions (λ r h. has_account r.buyer ∙ h) inv.redemption_buyers;
    redemption_publishers = inv.redemption_publishers;
    redemption_books = All-mono _ _ db.redemptions (λ r h. has_book r.book h) inv.redemption_books;
    item_books =
        All-append _ db.items (map (to_item b.id) offers)
          (All-mono _ _ db.items (λ i h. has_book i.book h) inv.item_books) (new_items offers);
    book_ids = ids_after;
    item_keys = keys;
  }
