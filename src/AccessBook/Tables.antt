-- ===== src/AccessBook/Tables.antt =====
-- The tables of SCHEMA in examples/access_book/engine.py and the statements that write them. A
-- statement that a CHECK, a key or a foreign key refuses gives `none` (sqlite3.IntegrityError).
-- The columns `payload` and `receipt` hold JSON text that this program writes and reads back; the
-- model keeps the values that the text stands for.
use gpu_batch_crypto.Prelude.{
  ℕ, ◌+◌, ◌-◌, Bool, true, ◌&&◌, Option, none, some, List, [], ◌∷◌, ◌++◌, Text, text_eq, leb, ◌==◌,
  if◌then◌else◌, any,
}
use gpu_batch_crypto.Sql.{update_where}
use gpu_batch_crypto.AccessBook.Checks.{Offer}

pub record Account : Type 0 where
  pub buyer : Text
  pub initial : ℕ
  pub available : ℕ
  pub reserved : ℕ
  pub redeemed : ℕ

-- The claims of a book's token; issuer, profile and scope are constants.
pub record Claims : Type 0 where
  pub aud : Text
  pub sub : Text
  pub iat : ℕ
  pub exp : ℕ
  pub jti : Text
  pub manifest_sha256 : Text
  pub count : ℕ
  pub reserved_micro_usd : ℕ

pub record Book : Type 0 where
  pub id : Text
  pub buyer : Text
  pub publisher : Text
  pub request_id : Text
  pub request_hash : Text
  pub payload : Claims
  pub token : Text
  pub issued : ℕ
  pub expires : ℕ
  pub remaining : ℕ
  pub active : Bool
  pub closed : Bool

pub record Item : Type 0 where
  pub book : Text
  pub resource : Text
  pub content_sha256 : Text
  pub terms_sha256 : Text
  pub units : ℕ

pub record Receipt : Type 0 where
  pub receipt_id : Text
  pub book : Text
  pub resource : Text
  pub buyer : Text
  pub publisher : Text
  pub content_sha256 : Text
  pub terms_sha256 : Text
  pub units : ℕ
  pub committed_at : ℕ

pub record Redemption : Type 0 where
  pub buyer : Text
  pub request_id : Text
  pub request_hash : Text
  pub book : Text
  pub resource : Text
  pub publisher : Text
  pub units : ℕ
  pub receipt : Receipt

pub record Publisher : Type 0 where
  pub id : Text
  pub accrued : ℕ

pub record Db : Type 0 where
  pub accounts : List Account
  pub offers : List Offer
  pub books : List Book
  pub items : List Item
  pub redemptions : List Redemption
  pub publishers : List Publisher
  pub revoked_keys : List Text

-- The tests of the WHERE clauses and of the keys.
abbrev pub of_buyer : Text → Account → Bool
of_buyer buyer a = text_eq a.buyer buyer

abbrev pub of_id : Text → Book → Bool
of_id id b = text_eq b.id id

abbrev pub of_request : Text → Text → Book → Bool
of_request buyer request_id b = text_eq b.buyer buyer && text_eq b.request_id request_id

abbrev pub of_owner : Text → Text → Book → Bool
of_owner id buyer b = text_eq b.id id && text_eq b.buyer buyer

abbrev pub of_parties : Text → Text → Text → Book → Bool
of_parties id buyer publisher b =
    text_eq b.id id && text_eq b.buyer buyer && text_eq b.publisher publisher

abbrev pub item_key : Text → Text → Item → Bool
item_key book resource i = text_eq i.book book && text_eq i.resource resource

abbrev pub redemption_request : Text → Text → Redemption → Bool
redemption_request buyer request_id r = text_eq r.buyer buyer && text_eq r.request_id request_id

abbrev pub redemption_key : Text → Text → Redemption → Bool
redemption_key book resource r = text_eq r.book book && text_eq r.resource resource

abbrev pub offer_key : Text → Text → Offer → Bool
offer_key publisher resource o = text_eq o.publisher publisher && text_eq o.resource resource

abbrev pub publisher_id : Text → Publisher → Bool
publisher_id id p = text_eq p.id id

-- CHECK(initial=available+reserved+redeemed)
checked_account : Account → Option Account
checked_account a = if a.initial == a.available + a.reserved + a.redeemed then some a else none

-- available=available-?, reserved=reserved+?, with CHECK(available>=0)
unfoldable pub reserve_row : ℕ → Account → Option Account
unfolding checked_account
reserve_row n a =
    if leb n a.available
    then checked_account (record a { available = a.available - n; reserved = a.reserved + n })
    else none

-- reserved=reserved-?, redeemed=redeemed+?, with CHECK(reserved>=0)
unfoldable pub redeem_row : ℕ → Account → Option Account
unfolding checked_account
redeem_row n a =
    if leb n a.reserved
    then checked_account (record a { reserved = a.reserved - n; redeemed = a.redeemed + n })
    else none

-- reserved=reserved-?, available=available+?, with CHECK(reserved>=0)
unfoldable pub release_row : ℕ → Account → Option Account
unfolding checked_account
release_row n a =
    if leb n a.reserved
    then checked_account (record a { reserved = a.reserved - n; available = a.available + n })
    else none

abbrev with_accounts : Db → Option (List Account) → Option Db
with_accounts db none = none
with_accounts db (some accounts) = some (record db { accounts = accounts })

-- UPDATE accounts SET ... WHERE buyer=?
unfoldable pub update_accounts : (Account → Option Account) → Text → Db → Option Db
update_accounts g buyer db = with_accounts db (update_where (of_buyer buyer) g db.accounts)

-- INSERT INTO accounts VALUES(?,?,?,0,0)
unfoldable pub insert_account : Text → ℕ → Db → Option Db
insert_account buyer units db =
    if any (of_buyer buyer) db.accounts
    then none
    else some (record db {
      accounts =
          db.accounts
          ++ record {
            buyer = buyer;
            initial = units;
            available = units;
            reserved = 0;
            redeemed = 0;
          }
            ∷ [];
    })

unfoldable pub delete_offer : Text → Text → List Offer → List Offer
delete_offer publisher resource [] = []
delete_offer publisher resource (o ∷ os) =
    let rest = delete_offer publisher resource os in
    if offer_key publisher resource o then rest else o ∷ rest

-- INSERT OR REPLACE INTO offers
unfoldable pub replace_offer : Offer → Db → Db
unfolding delete_offer
replace_offer o db = record db { offers = delete_offer o.publisher o.resource db.offers ++ o ∷ [] }

-- INSERT OR IGNORE INTO publishers VALUES(?,0)
unfoldable pub add_publisher : Text → Db → Db
add_publisher id db =
    if any (publisher_id id) db.publishers
    then db
    else record db { publishers = db.publishers ++ record { id = id; accrued = 0 } ∷ [] }

-- INSERT OR IGNORE INTO revoked_keys VALUES(?)
unfoldable pub add_revoked : Text → Db → Db
add_revoked kid db =
    if any (text_eq kid) db.revoked_keys
    then db
    else record db { revoked_keys = db.revoked_keys ++ kid ∷ [] }

-- INSERT INTO books: two keys, and the account that the row refers to.
unfoldable pub insert_book : Book → Db → Option Db
insert_book b db =
    if any (of_id b.id) db.books
    then none
    else if any (of_request b.buyer b.request_id) db.books
    then none
    else if any (of_buyer b.buyer) db.accounts
    then some (record db { books = db.books ++ b ∷ [] })
    else none

-- INSERT INTO items: the key, and the book that the row refers to.
unfoldable pub insert_item : Item → Db → Option Db
insert_item i db =
    if any (item_key i.book i.resource) db.items
    then none
    else if any (of_id i.book) db.books
    then some (record db { items = db.items ++ i ∷ [] })
    else none

-- executemany
unfoldable pub insert_items : List Item → Db → Option Db
insert_items [] db = some db
insert_items (i ∷ is) db = elim (insert_item i db) [ none ↦ none | some db' ↦ insert_items is db' ]

-- INSERT INTO redemptions: two keys, and the book that the row refers to.
unfoldable pub insert_redemption : Redemption → Db → Option Db
insert_redemption r db =
    if any (redemption_request r.buyer r.request_id) db.redemptions
    then none
    else if any (redemption_key r.book r.resource) db.redemptions
    then none
    else if any (of_id r.book) db.books
    then some (record db { redemptions = db.redemptions ++ r ∷ [] })
    else none

-- active=1
unfoldable pub activate_row : Book → Option Book
activate_row b = some (record b { active = true })

-- remaining=remaining-?, with CHECK(remaining>=0)
unfoldable pub consume_row : ℕ → Book → Option Book
consume_row n b =
    if leb n b.remaining then some (record b { remaining = b.remaining - n }) else none

-- closed=1, remaining=0
unfoldable pub close_row : Book → Option Book
close_row b = some (record b { closed = true; remaining = 0 })

abbrev with_books : Db → Option (List Book) → Option Db
with_books db none = none
with_books db (some books) = some (record db { books = books })

-- UPDATE books SET ... WHERE id=?
unfoldable pub update_books : (Book → Option Book) → Text → Db → Option Db
update_books g id db = with_books db (update_where (of_id id) g db.books)

-- accrued=accrued+?
unfoldable pub accrue_row : ℕ → Publisher → Option Publisher
accrue_row n p = some (record p { accrued = p.accrued + n })

abbrev with_publishers : Db → Option (List Publisher) → Option Db
with_publishers db none = none
with_publishers db (some publishers) = some (record db { publishers = publishers })

-- UPDATE publishers SET accrued=accrued+? WHERE id=?
unfoldable pub update_publishers : ℕ → Text → Db → Option Db
update_publishers n id db =
    with_publishers db (update_where (publisher_id id) (accrue_row n) db.publishers)
