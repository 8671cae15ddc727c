-- ===== src/HttpAccess/Tables.antt =====
-- The tables of SCHEMA in examples/http_access/ledger.py and the statements that write them. A
-- statement that a CHECK, a key or a foreign key refuses gives `none` (sqlite3.IntegrityError).
-- The columns `response` hold JSON text that the ledger writes and reads back; the model keeps the
-- values that the text stands for. The table `publisher` has the one row that SCHEMA inserts: the
-- model keeps its column `accrued`.
use gpu_batch_crypto.Prelude.{
  ℕ, ◌+◌, ◌-◌, Bool, true, false, ◌&&◌, Option, none, some, List, [], ◌∷◌, ◌++◌, Text, text_eq, leb,
  ◌==◌, if◌then◌else◌, any,
}
use gpu_batch_crypto.Sql.{update_where}

pub record Account : Type 0 where
  pub buyer : Text
  pub initial : ℕ
  pub available : ℕ
  pub reserved : ℕ
  pub spent : ℕ

pub record Book : Type 0 where
  pub id : Text
  pub buyer : Text
  pub kid : Text
  pub token : Text
  pub issued : ℕ
  pub expires : ℕ
  pub remaining : ℕ
  pub closed : Bool

pub record Item : Type 0 where
  pub book : Text
  pub resource : Text
  pub content : Text
  pub terms : Text
  pub units : ℕ

-- An entry of a manifest: a resource with its offer.
pub record Entry : Type 0 where
  pub resource : Text
  pub content : Text
  pub terms : Text
  pub units : ℕ

-- One book of the response of `issue`.
pub record Issued : Type 0 where
  pub book : Text
  pub token : Text
  pub manifest : List Entry

pub record Issue : Type 0 where
  pub buyer : Text
  pub request_id : Text
  pub fingerprint : Text
  pub response : List Issued

-- A receipt as the buyer gets it; the publisher is a constant.
pub record Receipt : Type 0 where
  pub id : Text
  pub buyer : Text
  pub book : Option Text
  pub resource : Text
  pub content : Text
  pub terms : Text
  pub units : ℕ
  pub committed_at : ℕ

-- A row of the table `receipts`.
pub record Spending : Type 0 where
  pub buyer : Text
  pub request_id : Text
  pub fingerprint : Text
  pub book : Option Text
  pub resource : Text
  pub units : ℕ
  pub response : Receipt

pub record Cancelled : Type 0 where
  pub released : ℕ
  pub books : ℕ

pub record Cancellation : Type 0 where
  pub buyer : Text
  pub request_id : Text
  pub fingerprint : Text
  pub response : Cancelled

pub record Db : Type 0 where
  pub accounts : List Account
  pub books : List Book
  pub items : List Item
  pub issues : List Issue
  pub receipts : List Spending
  pub revoked : List Text
  pub cancellations : List Cancellation
  pub accrued : ℕ

-- The tests of the WHERE clauses and of the keys.
abbrev pub of_buyer : Text → Account → Bool
of_buyer buyer a = text_eq a.buyer buyer

-- buyer=? AND available>=?
abbrev pub covers : Text → ℕ → Account → Bool
covers buyer n a = text_eq a.buyer buyer && leb n a.available

abbrev pub of_id : Text → Book → Bool
of_id id b = text_eq b.id id

abbrev pub of_owner : Text → Text → Book → Bool
of_owner id buyer b = text_eq b.id id && text_eq b.buyer buyer

abbrev pub item_key : Text → Text → Item → Bool
item_key book resource i = text_eq i.book book && text_eq i.resource resource

abbrev pub issue_request : Text → Text → Issue → Bool
issue_request buyer request_id r = text_eq r.buyer buyer && text_eq r.request_id request_id

abbrev pub spend_request : Text → Text → Spending → Bool
spend_request buyer request_id r = text_eq r.buyer buyer && text_eq r.request_id request_id

abbrev pub cancel_request : Text → Text → Cancellation → Bool
cancel_request buyer request_id r = text_eq r.buyer buyer && text_eq r.request_id request_id

-- A NULL is equal to nothing.
abbrev is_book : Option Text → Text → Bool
is_book none id = false
is_book (some book) id = text_eq book id

abbrev pub receipt_key : Text → Text → Spending → Bool
receipt_key book resource r = is_book r.book book && text_eq r.resource resource

-- CHECK(initial=available+reserved+spent)
checked_account : Account → Option Account
checked_account a = if a.initial == a.available + a.reserved + a.spent then some a else none

-- available=available-?, reserved=reserved+?
unfoldable pub reserve_row : ℕ → Account → Option Account
unfolding checked_account
reserve_row n a =
    if leb n a.available
    then checked_account (record a { available = a.available - n; reserved = a.reserved + n })
    else none

-- available=available-?, spent=spent+?
unfoldable pub buy_row : ℕ → Account → Option Account
unfolding checked_account
buy_row n a =
    if leb n a.available
    then checked_account (record a { available = a.available - n; spent = a.spent + n })
    else none

-- reserved=reserved-?, spent=spent+?, with CHECK(reserved>=0)
unfoldable pub spend_row : ℕ → Account → Option Account
unfolding checked_account
spend_row n a =
    if leb n a.reserved
    then checked_account (record a { reserved = a.reserved - n; spent = a.spent + n })
    else none

-- reserved=reserved-?, available=available+?, with CHECK(reserved>=0)
unfoldable pub release_row : ℕ → Account → Option Account
unfolding checked_account
release_row n a =
    if leb n a.reserved
    then checked_account (record a { reserved = a.reserved - n; available = a.available + n })
    else none

abbrev with_accounts : Db → Option (List Account) → Option Db
with_accounts db none = none
with_accounts db (some accounts) = some (record db { accounts = accounts })

-- UPDATE accounts SET ... WHERE ...
unfoldable pub update_accounts : (Account → Option Account) → (Account → Bool) → Db → Option Db
update_accounts g p db = with_accounts db (update_where p g db.accounts)

-- INSERT INTO accounts VALUES(?,?,?,0,0)
unfoldable pub insert_account : Text → ℕ → Db → Option Db
insert_account buyer units db =
    if any (of_buyer buyer) db.accounts
    then none
    else some (record db {
      accounts =
          db.accounts
          ++ record { buyer = buyer; initial = units; available = units; reserved = 0; spent = 0 }
            ∷ [];
    })

-- remaining=remaining-?, with CHECK(remaining>=0)
unfoldable pub consume_row : ℕ → Book → Option Book
consume_row n b =
    if leb n b.remaining then some (record b { remaining = b.remaining - n }) else none

-- remaining=0, closed=1
unfoldable pub close_row : Book → Option Book
close_row b = some (record b { remaining = 0; closed = true })

abbrev with_books : Db → Option (List Book) → Option Db
with_books db none = none
with_books db (some books) = some (record db { books = books })

-- UPDATE books SET ... WHERE id=?
unfoldable pub update_books : (Book → Option Book) → Text → Db → Option Db
update_books g id db = with_books db (update_where (of_id id) g db.books)

-- executemany("UPDATE books SET remaining=0,closed=1 WHERE id=?", ...)
unfoldable pub close_books : List Text → Db → Option Db
close_books [] db = some db
close_books (id ∷ ids) db = elim (update_books close_row id db) [
  | none ↦ none
  | some db' ↦ close_books ids db'
]

-- INSERT INTO books: the key, and the account that the row refers to.
unfoldable pub insert_book : Book → Db → Option Db
insert_book b db =
    if any (of_id b.id) db.books
    then none
    else if any (of_buyer b.buyer) db.accounts
    then some (record db { books = db.books ++ b ∷ [] })
    else none

-- INSERT INTO items: the key, and the book that the row refers to.
unfoldable pub insert_item : Item → Db → Option Db
insert_item i db =
    if any (item_key i.book i.resource) db.items
    then none
    else if any (of_id i.book) db.books
    then some (record db { items = db.items ++ i ∷ [] })
    else none

-- executemany
unfoldable pub insert_items : List Item → Db → Option Db
insert_items [] db = some db
insert_items (i ∷ is) db = elim (insert_item i db) [ none ↦ none | some db' ↦ insert_items is db' ]

-- INSERT INTO issues
unfoldable pub insert_issue : Issue → Db → Option Db
insert_issue r db =
    if any (issue_request r.buyer r.request_id) db.issues
    then none
    else some (record db { issues = db.issues ++ r ∷ [] })

abbrev spent_book : Spending → List Spending → Bool
spent_book r rows = elim r.book [ none ↦ false | some id ↦ any (receipt_key id r.resource) rows ]

-- INSERT INTO receipts: two keys, and the account that the row refers to.
unfoldable pub insert_receipt : Spending → Db → Option Db
insert_receipt r db =
    if any (spend_request r.buyer r.request_id) db.receipts
    then none
    else if spent_book r db.receipts
    then none
    else if any (of_buyer r.buyer) db.accounts
    then some (record db { receipts = db.receipts ++ r ∷ [] })
    else none

-- INSERT INTO cancellations: the key, and the account that the row refers to.
unfoldable pub insert_cancellation : Cancellation → Db → Option Db
insert_cancellation r db =
    if any (cancel_request r.buyer r.request_id) db.cancellations
    then none
    else if any (of_buyer r.buyer) db.accounts
    then some (record db { cancellations = db.cancellations ++ r ∷ [] })
    else none

-- INSERT OR IGNORE INTO revoked VALUES(?)
unfoldable pub add_revoked : Text → Db → Db
add_revoked kid db =
    if any (text_eq kid) db.revoked then db else record db { revoked = db.revoked ++ kid ∷ [] }

-- UPDATE publisher SET accrued=accrued+? WHERE id='publisher'
unfoldable pub accrue : ℕ → Db → Db
accrue n db = record db { accrued = db.accrued + n }
