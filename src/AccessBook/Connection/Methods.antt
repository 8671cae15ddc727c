-- ===== src/AccessBook/Connection/Methods.antt =====
-- The methods of `Clearing` (examples/access_book/engine.py) that open a transaction, on the
-- connection: what they do between BEGIN or SAVEPOINT and the end is that of AccessBook/Clearing.
use gpu_batch_crypto.Prelude.{ℕ, Bool, true, false, some, [], ◌∷◌, Text, any, all, length}
use gpu_batch_crypto.Prelude.Int.{pos}
use gpu_batch_crypto.Python.Values.{Value}
use gpu_batch_crypto.Sql.{select_first}
use gpu_batch_crypto.AccessBook.Checks.{
  OfferValue, identifier, validate, max_ttl, buyer_conservation, publisher_conservation,
}
use gpu_batch_crypto.AccessBook.Tables.{
  Receipt, of_request, of_parties, of_owner, redemption_request, replace_offer, add_publisher,
}
use gpu_batch_crypto.AccessBook.Exec
use gpu_batch_crypto.AccessBook.Exec.{State, Env, Exec, lift, gets, modify}
use gpu_batch_crypto.AccessBook.Clearing.{
  IssueRequest, ActivateRequest, RedeemRequest, check_issue, check_activate, check_redeem, key_ok,
  same_issue, activate_found, same_redemption, close_book, AuditReport, accounts_by_buyer,
  publishers_by_id, unless, buyer_conserved, publisher_conserved,
}
use gpu_batch_crypto.AccessBook.Connection.{OnConnection, transaction, plain, ◌>>=◌, ◌>>◌}

unfoldable pub set_offer : OfferValue → OnConnection (Unit {0})
set_offer value = do
  o ← plain (lift (validate value))
  transaction (plain (modify (replace_offer o)) >> plain (modify (add_publisher o.publisher)))

unfoldable pub issue : Env → IssueRequest → OnConnection (Text × Text)
issue env r = do
  a ← plain (lift (check_issue env.sha256 r))
  transaction do
    plain key_ok
    prior ← plain (gets (λ db. select_first (of_request a.buyer a.request_id) db.books))
    plain (same_issue env a prior)

unfoldable pub activate : Env → ActivateRequest → OnConnection Text
activate env r = do
  a ← plain (lift (check_activate r))
  transaction do
    plain key_ok
    row ← plain (gets (λ db. select_first (of_parties a.book a.buyer a.publisher) db.books))
    plain (activate_found env a row)

unfoldable pub redeem : Env → RedeemRequest → OnConnection Receipt
redeem env r = do
  a ← plain (lift (check_redeem env.sha256 r))
  transaction do
    prior ←
        plain (gets (λ db. select_first (redemption_request a.buyer a.request_id) db.redemptions))
    plain (same_redemption env a prior)

unfoldable pub release : Value → Value → OnConnection ℕ
release book buyer = do
  id ← plain (lift (identifier book))
  b ← plain (lift (identifier buyer))
  transaction do
    row ← plain (gets (λ db. select_first (of_owner id b) db.books))
    plain (close_book id b row)

unfoldable pub activate_unless : Bool → Env → ActivateRequest → OnConnection (Unit {0})
activate_unless true env r = plain (Exec.pure tt)
activate_unless false env r = activate env r >> plain (Exec.pure tt)

-- `issue`, `activate` and `redeem` find a transaction open, and are steps of it.
unfoldable pub purchase : Env → RedeemRequest → Value → OnConnection (Text × Text × Receipt)
unfolding activate_unless
purchase env r max_units = transaction do
  made ← issue env (record {
    buyer = r.buyer;
    publisher = r.publisher;
    resources = some (r.resource ∷ []);
    max_units = max_units;
    request_id = r.request_id;
    ttl = Value.int (pos max_ttl);
  })
  buyer ← plain (lift (identifier r.buyer))
  request_id ← plain (lift (identifier r.request_id))
  prior ← plain (gets (λ db. any (redemption_request buyer request_id) db.redemptions))
  activate_unless prior env (record {
    book = Value.str made.0;
    token = Value.str made.1;
    buyer = r.buyer;
    publisher = r.publisher;
  })
  receipt ← redeem env (record r { book = Value.str made.0 })
  plain (Exec.pure (made.0, made.1, receipt))

unfoldable pub audit : OnConnection AuditReport
audit = transaction do
  db ← plain (gets (λ db. db))
  let accounts = accounts_by_buyer db.accounts
  plain (lift (unless (all (buyer_conserved db) accounts) buyer_conservation))
  let publishers = publishers_by_id db.publishers
  plain (lift (unless (all (publisher_conserved db) publishers) publisher_conservation))
  plain (
      Exec.pure (record {
        accounts = accounts;
        publishers = publishers;
        books = length db.books;
        redemptions = length db.redemptions;
      }))
