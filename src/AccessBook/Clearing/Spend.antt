-- ===== src/AccessBook/Clearing/Spend.antt =====
-- `activate`, `redeem`, `release` and `purchase`.
use gpu_batch_crypto.Prelude.{
  ℕ, Bool, true, false, ◌&&◌, not, Option, none, some, [], ◌∷◌, Text, text_eq, leb, ltb,
  if◌then◌else◌, any,
}
use gpu_batch_crypto.Prelude.Int.{pos}
use gpu_batch_crypto.Python.Values.{Value}
use gpu_batch_crypto.Sql.{select_first}
use gpu_batch_crypto.AccessBook.Checks.{
  unavailable, wrong_token, redeem_conflict, wrong_scope, already_redeemed, unknown_book,
  identifier, max_ttl,
}
use gpu_batch_crypto.AccessBook.Tables.{
  Book, Item, Receipt, Redemption, of_owner, of_parties, item_key, redemption_request,
  redemption_key, redeem_row, release_row, update_accounts, update_books, activate_row, consume_row,
  close_row, update_publishers, insert_redemption,
}
use gpu_batch_crypto.AccessBook.Exec.{
  Exec, Env, pure, raise, gets, lift, or_raise, deny_if, execute, transaction, now, draw, ◌>>=◌,
  ◌>>◌,
}
use gpu_batch_crypto.AccessBook.Authority.{verify}
use gpu_batch_crypto.AccessBook.Clearing.Requests.{
  ActivateRequest, ActivateArgs, check_activate, RedeemRequest, RedeemArgs, check_redeem,
}
use gpu_batch_crypto.AccessBook.Clearing.Issue.{key_ok, issue}

-- row["issued"] <= now < row["expires"]
abbrev in_time : Book → ℕ → Bool
in_time b at = leb b.issued at && ltb at b.expires

-- The first use of a book checks its token; the clock is read once more for it.
unfoldable pub admit : Env → ActivateArgs → Book → Exec (Unit {0})
admit env a b = if b.active then pure tt else do
  at ← now env
  verify env a.token b.payload at
  execute (update_books activate_row a.book)

unfoldable pub activate_found : Env → ActivateArgs → Option Book → Exec Text
unfolding admit
activate_found env a none = raise unavailable
activate_found env a (some b) = do
  deny_if b.closed unavailable
  at ← now env
  deny_if (not (in_time b at)) unavailable
  deny_if (not (text_eq a.token b.token)) wrong_token
  admit env a b
  pure a.book

unfoldable pub activate_checked : Env → ActivateArgs → Exec Text
unfolding activate_found
activate_checked env a = transaction do
  key_ok
  row ← gets (λ db. select_first (of_parties a.book a.buyer a.publisher) db.books)
  activate_found env a row

unfoldable pub activate : Env → ActivateRequest → Exec Text
activate env r = do a ← lift (check_activate r); activate_checked env a

unfoldable pub new_receipt : RedeemArgs → Item → ℕ → Text → Receipt
new_receipt a i at receipt_id = record {
  receipt_id = receipt_id;
  book = a.book;
  resource = a.resource;
  buyer = a.buyer;
  publisher = a.publisher;
  content_sha256 = a.content_sha256;
  terms_sha256 = a.terms_sha256;
  units = i.units;
  committed_at = at;
}

unfoldable pub new_redemption : RedeemArgs → Item → Receipt → Redemption
new_redemption a i receipt = record {
  buyer = a.buyer;
  request_id = a.request_id;
  request_hash = a.request_hash;
  book = a.book;
  resource = a.resource;
  publisher = a.publisher;
  units = i.units;
  receipt = receipt;
}

-- The four statements that move the units of an item, and the receipt.
unfoldable pub spend_item : Env → RedeemArgs → ℕ → Item → Exec Receipt
unfolding new_receipt new_redemption
spend_item env a at i = do
  id ← draw env
  let receipt = new_receipt a i at id
  execute (update_accounts (redeem_row i.units) a.buyer)
  execute (update_books (consume_row i.units) a.book)
  execute (update_publishers i.units a.publisher)
  execute (insert_redemption (new_redemption a i receipt))
  pure receipt

-- `not item or item[...] != ...`
unfoldable pub matching_item : RedeemArgs → Option Item → Option Item
matching_item a none = none
matching_item a (some i) =
    if text_eq i.content_sha256 a.content_sha256 && text_eq i.terms_sha256 a.terms_sha256
    then some i
    else none

-- `not row or not row["active"] or row["closed"] or not row["issued"] <= now < row["expires"]`
unfoldable pub open_book : ℕ → Option Book → Option Book
open_book at none = none
open_book at (some b) = if b.active && not b.closed && in_time b at then some b else none

unfoldable pub redeem_new : Env → RedeemArgs → Exec Receipt
redeem_new env a = do
  key_ok
  row ← gets (λ db. select_first (of_parties a.book a.buyer a.publisher) db.books)
  at ← now env
  or_raise (open_book at row) unavailable
  item ← gets (λ db. select_first (item_key a.book a.resource) db.items)
  i ← or_raise (matching_item a item) wrong_scope
  spent ← gets (λ db. any (redemption_key a.book a.resource) db.redemptions)
  deny_if spent already_redeemed
  spend_item env a at i

-- The receipt of an earlier call with the same arguments.
unfoldable pub same_redemption : Env → RedeemArgs → Option Redemption → Exec Receipt
same_redemption env a none = redeem_new env a
same_redemption env a (some r) =
    if text_eq r.request_hash a.request_hash then pure r.receipt else raise redeem_conflict

unfoldable pub redeem_checked : Env → RedeemArgs → Exec Receipt
unfolding same_redemption
redeem_checked env a = transaction do
  prior ← gets (λ db. select_first (redemption_request a.buyer a.request_id) db.redemptions)
  same_redemption env a prior

unfoldable pub redeem : Env → RedeemRequest → Exec Receipt
redeem env r = do a ← lift (check_redeem env.sha256 r); redeem_checked env a

-- The units that were not used go back, and the book is closed.
unfoldable pub close_book : Text → Text → Option Book → Exec ℕ
close_book id buyer none = raise unknown_book
close_book id buyer (some b) = if b.closed then pure 0 else do
  execute (update_accounts (release_row b.remaining) buyer)
  execute (update_books close_row id)
  pure b.remaining

unfoldable pub release_checked : Text → Text → Exec ℕ
unfolding close_book
release_checked id buyer =
    transaction
      do row ← gets (λ db. select_first (of_owner id buyer) db.books); close_book id buyer row

unfoldable pub release : Value → Value → Exec ℕ
release book buyer = do
  id ← lift (identifier book)
  b ← lift (identifier buyer)
  release_checked id b

-- The arguments of `purchase`: those of `redeem` but for the book, and a budget.
unfoldable pub activate_unless : Bool → Env → ActivateRequest → Exec (Unit {0})
activate_unless true env r = pure tt
activate_unless false env r = activate env r >> pure tt

unfoldable pub purchase : Env → RedeemRequest → Value → Exec (Text × Text × Receipt)
unfolding activate_unless
purchase env r max_units = transaction do
  made ← issue env (record {
    buyer = r.buyer;
    publisher = r.publisher;
    resources = some (r.resource ∷ []);
    max_units = max_units;
    request_id = r.request_id;
    ttl = Value.int (pos max_ttl);
  })
  buyer ← lift (identifier r.buyer)
  request_id ← lift (identifier r.request_id)
  prior ← gets (λ db. any (redemption_request buyer request_id) db.redemptions)
  activate_unless prior env (record {
    book = Value.str made.0;
    token = Value.str made.1;
    buyer = r.buyer;
    publisher = r.publisher;
  })
  receipt ← redeem env (record r { book = Value.str made.0 })
  pure (made.0, made.1, receipt)
