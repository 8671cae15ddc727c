-- ===== src/HttpAccess/Ledger/Spend.antt =====
-- `Ledger.spend` of examples/http_access/ledger.py.
use gpu_batch_crypto.Prelude.{
  ℕ, Bool, false, ◌&&◌, not, Option, none, some, Text, Bytes, text_eq, Result, ok, ◌>>=◌, ◌>>◌,
  raise_if, ltb, leb, ◌==◌, any,
}
use gpu_batch_crypto.Python.Values.{Value}
use gpu_batch_crypto.Sql.{select_first}
use gpu_batch_crypto.HttpAccess.Checks.{
  Error, Offer, Catalog, denied, over_budget, no_funds, unavailable, expired, key_revoked,
  wrong_scope, already_redeemed, value_is,
}
use gpu_batch_crypto.HttpAccess.Tables.{
  Book, Item, Receipt, Spending, Db, of_buyer, covers, of_owner, item_key, receipt_key,
  spend_request, buy_row, spend_row, consume_row, update_accounts, update_books, insert_receipt,
  accrue,
}
use gpu_batch_crypto.HttpAccess.Ledger.Exec.{
  transaction, written, or_raise, prior, unless_prior, with_args,
}
use gpu_batch_crypto.HttpAccess.Ledger.Requests.{SpendRequest, SpendArgs, check_spend}
use gpu_batch_crypto.HttpAccess.Ledger.Issue.{row_count}

-- What comes from outside in one call of `spend`: the reading of the clock that the book's times
-- are compared with, the one that the receipt gets, the random id and the hash function.
pub record Clearing : Type 0 where
  pub now : ℕ
  pub committed_at : ℕ
  pub receipt_id : Text
  pub sha256 : Bytes → Bytes

token_is : Text → Option Value → Bool
token_is t none = false
token_is t (some v) = value_is t v

unfoldable pub is_usable : Book → Option Value → Bool
unfolding token_is
is_usable b token = token_is b.token token && not b.closed

-- (item["content"], item["terms"], item["units"]) == (content, terms, units)
unfoldable pub in_scope : Item → Offer → Bool
in_scope i o = text_eq i.content o.content && text_eq i.terms o.terms && i.units == o.units

-- The book branch up to its writes.
unfoldable pub check_book : Clearing → SpendArgs → Text → Db → Result Error (Unit {0})
unfolding is_usable in_scope
check_book env a book db = do
  b ← or_raise (select_first (of_owner book a.buyer) db.books) unavailable
  raise_if (not (is_usable b a.token)) (denied unavailable)
  raise_if (not (leb b.issued env.now && ltb env.now b.expires)) (denied expired)
  raise_if (any (text_eq b.kid) db.revoked) (denied key_revoked)
  i ← or_raise (select_first (item_key book a.resource) db.items) wrong_scope
  raise_if (not (in_scope i a.offer)) (denied wrong_scope)
  raise_if (any (receipt_key book a.resource) db.receipts) (denied already_redeemed)

-- The units are taken from the book, or from the balance where there is none.
unfoldable pub charge : Clearing → SpendArgs → Option Text → Db → Result Error Db
unfolding check_book
charge env a (some book) db = do
  check_book env a book db
  db₁ ← written (update_books (consume_row a.offer.units) book db)
  written (update_accounts (spend_row a.offer.units) (of_buyer a.buyer) db₁)
charge env a none db = do
  db₁ ← written (update_accounts (buy_row a.offer.units) (covers a.buyer a.offer.units) db)
  raise_if (not (row_count (covers a.buyer a.offer.units) db.accounts == 1)) (denied no_funds)
  ok db₁

unfoldable pub new_receipt : Clearing → SpendArgs → Receipt
new_receipt env a = record {
  id = env.receipt_id;
  buyer = a.buyer;
  book = a.book;
  resource = a.resource;
  content = a.offer.content;
  terms = a.offer.terms;
  units = a.offer.units;
  committed_at = env.committed_at;
}

unfoldable pub receipt_row : Clearing → SpendArgs → Spending
unfolding new_receipt
receipt_row env a = record {
  buyer = a.buyer;
  request_id = a.request_id;
  fingerprint = a.fingerprint;
  book = a.book;
  resource = a.resource;
  units = a.offer.units;
  response = new_receipt env a;
}

unfoldable pub spend_new : Clearing → SpendArgs → Db → Result Error (Receipt × Db)
spend_new env a db = do
  raise_if (ltb a.max_units a.offer.units) (denied over_budget)
  db₁ ← charge env a a.book db
  db₂ ← written (insert_receipt (receipt_row env a) db₁)
  ok (new_receipt env a, accrue a.offer.units db₂)

unfoldable pub spend_body : Clearing → SpendArgs → Db → Result Error (Receipt × Db)
spend_body env a db = do
  earlier ←
      prior (λ r. r.fingerprint) (λ r. r.response)
        (select_first (spend_request a.buyer a.request_id) db.receipts) a.fingerprint
  unless_prior earlier (spend_new env a) db

unfoldable pub spend : Clearing → Catalog → SpendRequest → Db → Result Error Receipt × Db
spend env catalog r =
    with_args (check_spend env.sha256 catalog r) (λ a. transaction (spend_body env a))
