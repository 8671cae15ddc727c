-- ===== src/AccessBook/Clearing/Issue.antt =====
-- `seed_simulated_balance`, `set_offer`, `revoke_key` and `issue`.
use gpu_batch_crypto.Prelude.{
  ℕ, ◌+◌, Bool, false, ◌&&◌, not, Option, none, some, List, [], ◌∷◌, map, Text, text_eq, leb, ltb,
  if◌then◌else◌, length, any, min,
}
use gpu_batch_crypto.Python.Json.{Items, arr, nil, cons}
use gpu_batch_crypto.Python.Values.{Value}
use gpu_batch_crypto.Sql.{select_first}
use gpu_batch_crypto.AccessBook.Checks.{
  Offer, OfferValue, validate, identifier, integer, max_units, key_revoked, issue_conflict,
  no_offer, over_budget, no_funds, canonical, fingerprint, offer_json,
}
use gpu_batch_crypto.AccessBook.Tables.{
  Account, Claims, Book, Item, of_request, offer_key, reserve_row, update_accounts, insert_account,
  replace_offer, add_publisher, add_revoked, insert_book, insert_items,
}
use gpu_batch_crypto.AccessBook.Exec.{
  Exec, Env, pure, raise, gets, lift, or_raise, deny_if, execute, modify, transaction, now, draw,
  ◌>>=◌, ◌>>◌,
}
use gpu_batch_crypto.AccessBook.Authority.{key_id, sign, claims_json}
use gpu_batch_crypto.AccessBook.Clearing.Requests.{IssueRequest, IssueArgs, check_issue}

-- One statement outside a transaction.
unfoldable pub seed_simulated_balance : Value → Value → Exec (Unit {0})
seed_simulated_balance buyer units = do
  b ← lift (identifier buyer)
  n ← lift (integer units 1 max_units)
  execute (insert_account b n)

unfoldable pub set_offer : OfferValue → Exec (Unit {0})
set_offer value = do
  o ← lift (validate value)
  transaction (modify (replace_offer o) >> modify (add_publisher o.publisher))

unfoldable pub revoke_key : Exec (Unit {0})
revoke_key = modify (add_revoked key_id)

-- `_key_ok`
unfoldable pub key_ok : Exec (Unit {0})
key_ok = do revoked ← gets (λ db. any (text_eq key_id) db.revoked_keys); deny_if revoked key_revoked

is_current : ℕ → Offer → Bool
is_current at o = ltb at o.valid_until

-- An offer that is there and has not expired.
current_offer : ℕ → Option Offer → Option Offer
unfolding is_current
current_offer at none = none
current_offer at (some o) = if is_current at o then some o else none

add_offer : Option Offer → Option (List Offer) → Option (List Offer)
add_offer (some o) (some os) = some (o ∷ os)
add_offer (some o) none = none
add_offer none os = none

-- The publisher's offers for the resources, or none where one is missing or has expired.
unfoldable pub current_offers : ℕ → Text → List Text → List Offer → Option (List Offer)
unfolding current_offer add_offer
current_offers at publisher [] table = some []
current_offers at publisher (r ∷ rs) table =
    add_offer (current_offer at (select_first (offer_key publisher r) table))
      (current_offers at publisher rs table)

unfoldable pub total_units : List Offer → ℕ
total_units [] = 0
total_units (o ∷ os) = o.units + total_units os

-- min(now + ttl, *valid_until)
unfoldable pub expiry : ℕ → List Offer → ℕ
expiry limit [] = limit
expiry limit (o ∷ os) = min o.valid_until (expiry limit os)

offers_json : List Offer → Items
offers_json [] = nil
offers_json (o ∷ os) = cons (offer_json o) (offers_json os)

unfoldable pub book_claims : Env → IssueArgs → ℕ → List Offer → Text → Claims
unfolding offers_json
book_claims env a at offers id = record {
  aud = a.publisher;
  sub = a.buyer;
  iat = at;
  exp = expiry (at + a.ttl) offers;
  jti = id;
  manifest_sha256 = fingerprint env.sha256 (arr (offers_json offers));
  count = length offers;
  reserved_micro_usd = total_units offers;
}

unfoldable pub new_book : Env → IssueArgs → ℕ → List Offer → Text → Text → Book
new_book env a at offers id token = record {
  id = id;
  buyer = a.buyer;
  publisher = a.publisher;
  request_id = a.request_id;
  request_hash = a.request_hash;
  payload = book_claims env a at offers id;
  token = token;
  issued = at;
  expires = expiry (at + a.ttl) offers;
  remaining = total_units offers;
  active = false;
  closed = false;
}

unfoldable pub to_item : Text → Offer → Item
to_item id o = record {
  book = id;
  resource = o.resource;
  content_sha256 = o.content_sha256;
  terms_sha256 = o.terms_sha256;
  units = o.units;
}

-- Whether the account can cover the total: the WHERE clause of the reservation.
unfoldable pub covers : Text → ℕ → Account → Bool
covers buyer total a = text_eq a.buyer buyer && leb total a.available

unfoldable pub issue_new : Env → IssueArgs → Exec (Text × Text)
unfolding covers
issue_new env a = do
  at ← now env
  table ← gets (λ db. db.offers)
  offers ← or_raise (current_offers at a.publisher a.resources table) no_offer
  deny_if (ltb a.max_units (total_units offers)) over_budget
  funded ← gets (λ db. any (covers a.buyer (total_units offers)) db.accounts)
  deny_if (not funded) no_funds
  execute (update_accounts (reserve_row (total_units offers)) a.buyer)
  id ← draw env
  token ← sign env (canonical (claims_json (book_claims env a at offers id)))
  execute (insert_book (new_book env a at offers id token))
  execute (insert_items (map (to_item id) offers))
  pure (id, token)

-- A book that an earlier call made is returned if that call had the same arguments.
unfoldable pub same_issue : Env → IssueArgs → Option Book → Exec (Text × Text)
same_issue env a none = issue_new env a
same_issue env a (some b) =
    if text_eq b.request_hash a.request_hash then pure (b.id, b.token) else raise issue_conflict

unfoldable pub issue_checked : Env → IssueArgs → Exec (Text × Text)
unfolding key_ok same_issue
issue_checked env a = transaction do
  key_ok
  prior ← gets (λ db. select_first (of_request a.buyer a.request_id) db.books)
  same_issue env a prior

unfoldable pub issue : Env → IssueRequest → Exec (Text × Text)
issue env r = do a ← lift (check_issue env.sha256 r); issue_checked env a
