-- ===== src/AccessBook/Invariant.antt =====
-- The invariant of the clearing database: every balance is what the books and the redemptions
-- make it, an open book holds the units of its items that are not redeemed, a closed one none,
-- and rows refer to rows that are there.
pub mod Redeem
pub mod Release
pub mod Catalog
pub mod Issue
use gpu_batch_crypto.Prelude.{ℕ, ◌+◌, ◌≡◌, Bool, true, false, List, [], Text, any, All}
use gpu_batch_crypto.Sql.Laws.{Single}
use gpu_batch_crypto.AccessBook.Checks.{Offer}
use gpu_batch_crypto.AccessBook.Tables.{
  Account, Book, Item, Redemption, Publisher, Db, of_buyer, of_id, item_key, publisher_id,
}
use gpu_batch_crypto.AccessBook.Clearing.{sum_remaining, sum_redeemed, sum_accrued}
use gpu_batch_crypto.AccessBook.Outstanding.{outstanding}

pub record IsBalanced (books : List Book) (redemptions : List Redemption) (a : Account)
    : Type 0 where
  pub total : a.initial ≡ a.available + a.reserved + a.redeemed
  pub reserved : a.reserved ≡ sum_remaining a.buyer books
  pub redeemed : a.redeemed ≡ sum_redeemed a.buyer redemptions

pub record IsFunded (items : List Item) (redemptions : List Redemption) (b : Book) : Type 0 where
  pub when_closed : b.closed ≡ true → b.remaining ≡ 0
  pub when_open : b.closed ≡ false → b.remaining ≡ outstanding b.id items redemptions

abbrev pub HasAccount : List Account → Text → Type 0
HasAccount accounts buyer = any (of_buyer buyer) accounts ≡ true

abbrev pub HasPublisher : List Publisher → Text → Type 0
HasPublisher publishers id = any (publisher_id id) publishers ≡ true

abbrev pub HasBook : List Book → Text → Type 0
HasBook books id = any (of_id id) books ≡ true

pub record IsConserved (db : Db) : Type 0 where
  pub balances : All (IsBalanced db.books db.redemptions) db.accounts
  pub accruals : All (λ (p : Publisher). p.accrued ≡ sum_accrued p.id db.redemptions) db.publishers
  pub funding : All (IsFunded db.items db.redemptions) db.books
  pub book_buyers : All (λ (b : Book). HasAccount db.accounts b.buyer) db.books
  pub book_publishers : All (λ (b : Book). HasPublisher db.publishers b.publisher) db.books
  pub offer_publishers : All (λ (o : Offer). HasPublisher db.publishers o.publisher) db.offers
  pub redemption_buyers : All (λ (r : Redemption). HasAccount db.accounts r.buyer) db.redemptions
  pub redemption_publishers :
      All (λ (r : Redemption). HasPublisher db.publishers r.publisher) db.redemptions
  pub redemption_books : All (λ (r : Redemption). HasBook db.books r.book) db.redemptions
  pub item_books : All (λ (i : Item). HasBook db.books i.book) db.items
  pub book_ids : (id : Text) → Single (of_id id) db.books
  pub item_keys : (book resource : Text) → Single (item_key book resource) db.items

-- A database with no rows.
abbrev pub empty_db : Db
empty_db = record {
  accounts = [];
  offers = [];
  books = [];
  items = [];
  redemptions = [];
  publishers = [];
  revoked_keys = [];
}

pub empty-IsConserved : IsConserved empty_db
empty-IsConserved = record {
  balances = tt;
  accruals = tt;
  funding = tt;
  book_buyers = tt;
  book_publishers = tt;
  offer_publishers = tt;
  redemption_buyers = tt;
  redemption_publishers = tt;
  redemption_books = tt;
  item_books = tt;
  book_ids = λ id. tt;
  item_keys = λ b r. tt;
}
