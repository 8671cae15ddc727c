-- ===== src/AccessBook/Tests.antt =====
-- Runs of the clearing, and the theorems at concrete inputs.
use gpu_batch_crypto.Prelude.{
  ap, ℕ, zero, suc, ◌+◌, ◌≡◌, refl, true, false, none, some, List, [], ◌∷◌, ◌++◌, Text, Bytes, text,
  text_eq, map, Result, ok, err, take, any, ◌⊎◌, inl, inr, Bool-cases,
}
use gpu_batch_crypto.Prelude.Int.{pos}
use gpu_batch_crypto.Python.Values.{Value, str, int}
use gpu_batch_crypto.Python.Json.{dumps, sort_keys}
use gpu_batch_crypto.AccessBook.Checks.{
  OfferValue, Offer, Error, denied, already_redeemed, key_revoked,
}
use gpu_batch_crypto.AccessBook.Tables.{
  Receipt, Redemption, Book, Account, Publisher, redemption_request, redemption_key,
}
use gpu_batch_crypto.AccessBook.Authority.{claims_json, expected_header, key_id}
use gpu_batch_crypto.AccessBook.Exec.{State, Env}
use gpu_batch_crypto.AccessBook.Clearing.{
  IssueArgs, IssueRequest, ActivateRequest, RedeemRequest, RedeemArgs,
}
use gpu_batch_crypto.AccessBook.Calls.{
  Call, after, run, initial, report, run-IsConserved, audit-run,
}
use gpu_batch_crypto.AccessBook.Retry.{redeem-retry}
use gpu_batch_crypto.AccessBook.Refusals.{
  Refused, Released, redeem-once, release-twice, redeem-Released,
}
use gpu_batch_crypto.AccessBook.Grants.{Fresh, Repeated, issue-granted}
use gpu_batch_crypto.AccessBook.Revoked.{Raises, revoke_key-refuses}
use gpu_batch_crypto.AccessBook.Connection.Methods
use gpu_batch_crypto.AccessBook.Atomic.{Transacts, methods-Transacts}
use gpu_batch_crypto.AccessBook.Invariant.{IsConserved}
use gpu_batch_crypto.AccessBook.Outstanding.{outstanding}
use gpu_batch_crypto.AccessBook.Conserve.Spend.{redeem-Keeps}
use gpu_batch_crypto.Python.Ints.{int_from_bytes, int_to_bytes, to_decimal}
use gpu_batch_crypto.Python.Base64.{
  symbol, urlsafe_b64encode, rstrip_equals, symbol_value, decode_group, b64decode,
}
use gpu_batch_crypto.Python.Json.{text_le, texts}
use gpu_batch_crypto.Python.Values.{is_ascii, is_printable}
use gpu_batch_crypto.Core.{
  as_bytes, check_key, check_batch, check_records, check_digests, check_messages,
}
use gpu_batch_crypto.Jws.{
  b64, is_label, check_label, scalar_r, scalar_s, is_low_s, check_signature, header, signing_input,
  join_tokens, sign_es256,
}
use gpu_batch_crypto.Sql.{select_first, select_sum, update_where}
use gpu_batch_crypto.AccessBook.Checks.{
  is_identifier, identifier, integer, is_sha256, sha256_hex, bounded_token, canonical, hexdigest,
  fingerprint, validate, offer_json,
}
use gpu_batch_crypto.AccessBook.Tables.{
  reserve_row, redeem_row, release_row, update_accounts, insert_account, delete_offer,
  replace_offer, add_publisher, add_revoked, insert_book, insert_item, insert_items,
  insert_redemption, activate_row, consume_row, close_row, update_books, accrue_row,
  update_publishers,
}
use gpu_batch_crypto.AccessBook.Exec.{transaction, now, draw}
use gpu_batch_crypto.AccessBook.Authority.{
  claims_json, expected_header, raw_signature, sign, is_expected, count_verification, verify,
}
use gpu_batch_crypto.AccessBook.Clearing.{
  insert_text, sorted, has_duplicate, resource_list, check_resources, check_issue, check_activate,
  check_redeem, seed_simulated_balance, set_offer, revoke_key, key_ok, current_offers, total_units,
  expiry, book_claims, new_book, to_item, covers, issue_new, same_issue, issue_checked, issue,
  admit, activate_found, activate_checked, activate, new_receipt, new_redemption, spend_item,
  matching_item, open_book, redeem_new, same_redemption, redeem_checked, redeem, close_book,
  release_checked, release, activate_unless, purchase, sum_remaining, sum_redeemed, sum_accrued,
  buyer_conserved, publisher_conserved, insert_account_row, accounts_by_buyer, insert_publisher_row,
  publishers_by_id, unless, audit,
}

abbrev repeat : ℕ → ℕ → Bytes
repeat zero b = []
repeat (suc n) b = b ∷ repeat n b

-- 32 bytes that begin with the first bytes of the text.
abbrev toy_sha256 : Bytes → Bytes
toy_sha256 b = take 32 (b ++ repeat 32 0)

abbrev hex64 : Text
hex64 = repeat 64 97

abbrev offer : Offer
offer = record {
  publisher = text "pub";
  resource = text "doc";
  content_sha256 = hex64;
  terms_sha256 = hex64;
  units = 5;
  valid_until = 2000;
}

abbrev args : IssueArgs
args = record {
  buyer = text "buyer";
  publisher = text "pub";
  resources = text "doc" ∷ [];
  max_units = 10;
  request_id = text "r1";
  ttl = 60;
  request_hash = [];
}

abbrev base_env : Env
base_env = record {
  clock = λ n. pos 1000;
  token_hex = λ n. (97 + n) ∷ [];
  sha256 = toy_sha256;
  private_sign = λ n d. (1, 1);
  jwt_decode = λ token aud. none;
}

-- The clock stands still, the n-th draw is one letter, and every token is taken for the one of
-- the first book.
abbrev toy_env : Env
toy_env = record base_env {
  jwt_decode = λ token aud.
      some (claims_json (book_claims base_env args 1000 (offer ∷ []) (97 ∷ [])), expected_header);
}

abbrev offer_value : OfferValue
offer_value = record {
  publisher = str (text "pub");
  resource = str (text "doc");
  content_sha256 = str hex64;
  terms_sha256 = str hex64;
  units = int (pos 5);
  valid_until = int (pos 2000);
}

abbrev issue_request : IssueRequest
issue_request = record {
  buyer = str (text "buyer");
  publisher = str (text "pub");
  resources = some (str (text "doc") ∷ []);
  max_units = int (pos 10);
  request_id = str (text "r1");
  ttl = int (pos 60);
}

abbrev redeem_request : RedeemRequest
redeem_request = record {
  book = str (97 ∷ []);
  resource = str (text "doc");
  buyer = str (text "buyer");
  publisher = str (text "pub");
  content_sha256 = str hex64;
  terms_sha256 = str hex64;
  request_id = str (text "r2");
}

-- The book and the token of a call that returned.
abbrev made_by : Result Error (Text × Text) × State → Text × Text
made_by (ok made, s) = made
made_by (err e, s) = ([], [])

-- A funded buyer and an offer; then a book is issued, used and spent from.
abbrev funded_calls : List Call
funded_calls = Call.seed (str (text "buyer")) (int (pos 100)) ∷ Call.offer offer_value ∷ []

abbrev issued_calls : List Call
issued_calls = funded_calls ++ Call.issue issue_request ∷ []

abbrev made : Text × Text
made = made_by (issue toy_env issue_request (run toy_env funded_calls initial))

abbrev active_calls : List Call
active_calls =
    issued_calls
    ++ Call.activate (record {
      book = str made.0;
      token = str made.1;
      buyer = str (text "buyer");
      publisher = str (text "pub");
    })
      ∷ []

abbrev spent_calls : List Call
spent_calls = active_calls ++ Call.redeem redeem_request ∷ []

abbrev funded : State
funded = run toy_env funded_calls initial

-- The database after those calls, with a shorter token.
abbrev book_row : Book
book_row = record {
  id = 97 ∷ [];
  buyer = text "buyer";
  publisher = text "pub";
  request_id = text "r1";
  request_hash = [];
  payload = book_claims toy_env args 1000 (offer ∷ []) (97 ∷ []);
  token = [];
  issued = 1000;
  expires = 1060;
  remaining = 5;
  active = true;
  closed = false;
}

abbrev active : State
active = record {
  db = record {
    accounts =
        record { buyer = text "buyer"; initial = 100; available = 95; reserved = 5; redeemed = 0 }
        ∷ [];
    offers = offer ∷ [];
    books = book_row ∷ [];
    items =
        record {
          book = 97 ∷ [];
          resource = text "doc";
          content_sha256 = hex64;
          terms_sha256 = hex64;
          units = 5;
        }
        ∷ [];
    redemptions = [];
    publishers = record { id = text "pub"; accrued = 0 } ∷ [];
    revoked_keys = [];
  };
  effects = record { readings = 4; draws = 1; signings = 1; signatures = 1; verifications = 1 };
}

active-IsConserved : IsConserved active.db
unfolding text text_eq sum_remaining sum_redeemed sum_accrued select_sum outstanding
active-IsConserved = record {
  balances = (record { total = refl; reserved = refl; redeemed = refl }, tt);
  accruals = (refl, tt);
  funding = (record { when_closed = λ h. cc; when_open = λ _. refl }, tt);
  book_buyers = (refl, tt);
  book_publishers = (refl, tt);
  offer_publishers = (refl, tt);
  redemption_buyers = tt;
  redemption_publishers = tt;
  redemption_books = tt;
  item_books = (refl, tt);
  book_ids = λ id. ((λ _. refl), tt);
  item_keys = λ book resource. ((λ _. refl), tt);
}

abbrev spent : State
spent = (redeem toy_env redeem_request active).1

spent-IsConserved : IsConserved spent.db
spent-IsConserved = (redeem-Keeps toy_env redeem_request).at active active-IsConserved

abbrev receipt : Receipt
receipt = record {
  receipt_id = 98 ∷ [];
  book = 97 ∷ [];
  resource = text "doc";
  buyer = text "buyer";
  publisher = text "pub";
  content_sha256 = hex64;
  terms_sha256 = hex64;
  units = 5;
  committed_at = 1000;
}

abbrev buyer : Value
buyer = str (text "buyer")

abbrev book : Value
book = str (97 ∷ [])

-- Another request for the resource that was redeemed.
abbrev second_request : RedeemRequest
second_request = record redeem_request { request_id = str (text "r3") }

abbrev redeem_args : Result Error RedeemArgs → RedeemArgs
redeem_args (ok a) = a
redeem_args (err e) = record {
  book = [];
  resource = [];
  buyer = [];
  publisher = [];
  content_sha256 = [];
  terms_sha256 = [];
  request_id = [];
  request_hash = [];
}

abbrev issue_args : Result Error IssueArgs → IssueArgs
issue_args (ok a) = a
issue_args (err e) = args

abbrev second_args : RedeemArgs
second_args = record {
  book = 97 ∷ [];
  resource = text "doc";
  buyer = text "buyer";
  publisher = text "pub";
  content_sha256 = hex64;
  terms_sha256 = hex64;
  request_id = text "r3";
  request_hash = (redeem_args (check_redeem toy_sha256 second_request)).request_hash;
}

abbrev first_args : IssueArgs
first_args = issue_args (check_issue toy_sha256 issue_request)

abbrev activate_request : ActivateRequest
activate_request = record {
  book = book;
  token = str [];
  buyer = buyer;
  publisher = str (text "pub");
}

-- The key is revoked after the redemption.
abbrev revoked : State
revoked = (revoke_key spent).1

abbrev closed : State
closed = (release book buyer active).1

abbrev issued : State
issued = (issue toy_env issue_request funded).1

revoke_key-redemptions : (s : State) → (revoke_key s).1.db.redemptions ≡ s.db.redemptions
unfolding revoke_key add_revoked
revoke_key-redemptions s = elim (Bool-cases (any (text_eq key_id) s.db.revoked_keys)) [
  | inl t ↦ rw t
  | inr t ↦ rw t
]

abbrev redeeming : RedeemArgs
redeeming = redeem_args (check_redeem toy_sha256 redeem_request)

-- What the calls return at these arguments.
record Facts : Type 0 where
  pub made_a_book : issue toy_env issue_request funded ≡ (ok made, issued)
  pub good_issue : check_issue toy_sha256 issue_request ≡ ok first_args
  pub redeemed : redeem toy_env redeem_request active ≡ (ok receipt, spent)
  pub good_second : check_redeem toy_sha256 second_request ≡ ok second_args
  pub good_first : check_redeem toy_sha256 redeem_request ≡ ok redeeming
  pub second_fresh :
      select_first
        (redemption_request second_args.buyer second_args.request_id)
        spent.db.redemptions
      ≡ none
  pub second_spent :
      any (redemption_key second_args.book second_args.resource) spent.db.redemptions ≡ true
  pub book_id : identifier book ≡ ok second_args.book
  pub owner_id : identifier buyer ≡ ok (text "buyer")
  pub returned : release book buyer active ≡ (ok 5, closed)
  pub closed_fresh :
      select_first
        (redemption_request second_args.buyer second_args.request_id)
        closed.db.redemptions
      ≡ none
  pub balances :
      map {B = ℕ × ℕ × ℕ} (λ (a : Account). (a.available, a.reserved, a.redeemed)) spent.db.accounts
      ≡ (95, 0, 5) ∷ []
  pub accruals : map (λ (p : Publisher). p.accrued) spent.db.publishers ≡ 5 ∷ []
  pub denied_again : (redeem toy_env second_request spent).0 ≡ err (denied already_redeemed)
  pub revoked_fresh :
      select_first
        (redemption_request second_args.buyer second_args.request_id)
        (revoke_key spent).1.db.redemptions
      ≡ none

facts : Facts
unfolding run after text text_eq dumps sort_keys int_from_bytes int_to_bytes to_decimal symbol
    urlsafe_b64encode rstrip_equals symbol_value decode_group b64decode text_le texts is_ascii
    is_printable as_bytes check_key check_batch check_records check_digests check_messages b64
    is_label check_label scalar_r scalar_s is_low_s check_signature header signing_input join_tokens
    sign_es256 select_first select_sum update_where is_identifier identifier integer is_sha256
    sha256_hex bounded_token canonical hexdigest fingerprint validate offer_json reserve_row
    redeem_row release_row update_accounts insert_account delete_offer replace_offer add_publisher
    add_revoked insert_book insert_item insert_items insert_redemption activate_row consume_row
    close_row update_books accrue_row update_publishers transaction now draw claims_json
    expected_header raw_signature sign is_expected count_verification verify insert_text sorted
    has_duplicate resource_list check_resources check_issue check_activate check_redeem
    seed_simulated_balance set_offer revoke_key key_ok current_offers total_units expiry book_claims
    new_book to_item covers issue_new same_issue issue_checked issue admit activate_found
    activate_checked activate new_receipt new_redemption spend_item matching_item open_book
    redeem_new same_redemption redeem_checked redeem close_book release_checked release
    activate_unless purchase sum_remaining sum_redeemed sum_accrued buyer_conserved
    publisher_conserved insert_account_row accounts_by_buyer insert_publisher_row publishers_by_id
    unless audit
facts = record {
  made_a_book = refl;
  good_issue = refl;
  redeemed = refl;
  good_second = refl;
  good_first = refl;
  second_fresh = refl;
  second_spent = refl;
  book_id = refl;
  owner_id = refl;
  returned = refl;
  closed_fresh = refl;
  balances = refl;
  accruals = refl;
  denied_again = refl;
  revoked_fresh = refl;
}

test_run :
    map (λ (r : Redemption). r.units) (run toy_env spent_calls initial).db.redemptions ≡ 5 ∷ []
unfolding run after text text_eq dumps sort_keys int_from_bytes int_to_bytes to_decimal symbol
    urlsafe_b64encode rstrip_equals symbol_value decode_group b64decode text_le texts is_ascii
    is_printable as_bytes check_key check_batch check_records check_digests check_messages b64
    is_label check_label scalar_r scalar_s is_low_s check_signature header signing_input join_tokens
    sign_es256 select_first select_sum update_where is_identifier identifier integer is_sha256
    sha256_hex bounded_token canonical hexdigest fingerprint validate offer_json reserve_row
    redeem_row release_row update_accounts insert_account delete_offer replace_offer add_publisher
    add_revoked insert_book insert_item insert_items insert_redemption activate_row consume_row
    close_row update_books accrue_row update_publishers transaction now draw claims_json
    expected_header raw_signature sign is_expected count_verification verify insert_text sorted
    has_duplicate resource_list check_resources check_issue check_activate check_redeem
    seed_simulated_balance set_offer revoke_key key_ok current_offers total_units expiry book_claims
    new_book to_item covers issue_new same_issue issue_checked issue admit activate_found
    activate_checked activate new_receipt new_redemption spend_item matching_item open_book
    redeem_new same_redemption redeem_checked redeem close_book release_checked release
    activate_unless purchase sum_remaining sum_redeemed sum_accrued buyer_conserved
    publisher_conserved insert_account_row accounts_by_buyer insert_publisher_row publishers_by_id
    unless audit
test_run = refl

run-IsConserved_example : IsConserved (run toy_env spent_calls initial).db
run-IsConserved_example = run-IsConserved toy_env spent_calls

audit-run_example :
    audit (run toy_env spent_calls initial)
    ≡ (ok (report (run toy_env spent_calls initial).db), run toy_env spent_calls initial)
audit-run_example = audit-run toy_env spent_calls

redeem-retry_example : redeem toy_env redeem_request revoked ≡ (ok receipt, revoked)
redeem-retry_example =
    redeem-retry toy_env redeem_request redeeming active revoked active-IsConserved facts.good_first
      facts.redeemed
      (ap (select_first (redemption_request redeeming.buyer redeeming.request_id))
        (revoke_key-redemptions spent))

redeem-once_example : Refused spent.db (redeem toy_env second_request spent)
redeem-once_example =
    redeem-once toy_env second_request second_args spent spent-IsConserved facts.good_second
      facts.second_fresh facts.second_spent

release-twice_example :
    Released active (97 ∷ []) (text "buyer") 5 closed.db
    × (release book buyer closed ≡ (ok 0, closed))
release-twice_example =
    release-twice book buyer (97 ∷ []) (text "buyer") active active-IsConserved facts.book_id
      facts.owner_id facts.returned

closed_book : Released active (97 ∷ []) (text "buyer") 5 closed.db
closed_book =
    (release-twice book buyer (97 ∷ []) (text "buyer") active active-IsConserved facts.book_id
      facts.owner_id facts.returned).0

redeem-Released_example : Refused closed.db (redeem toy_env second_request closed)
redeem-Released_example =
    redeem-Released toy_env second_request second_args (text "buyer") active closed {n = 5}
      closed_book facts.good_second facts.closed_fresh

issue-granted_example :
    (any (text_eq key_id) funded.db.revoked_keys ≡ false)
    × (Fresh toy_env first_args funded made issued.db ⊎ Repeated first_args funded made issued)
issue-granted_example =
    issue-granted toy_env issue_request first_args funded (run-IsConserved toy_env funded_calls)
      facts.good_issue facts.made_a_book

methods-Transacts_example :
    ((q : IssueRequest) → Transacts (Methods.issue toy_env q) (issue toy_env q))
    × ((r : ActivateRequest) → Transacts (Methods.activate toy_env r) (activate toy_env r))
    × ((r : RedeemRequest) → Transacts (Methods.redeem toy_env r) (redeem toy_env r))
    × ((book buyer : Value) → Transacts (Methods.release book buyer) (release book buyer))
    × ((r : RedeemRequest) (max_units : Value)
        → Transacts (Methods.purchase toy_env r max_units) (purchase toy_env r max_units))
    × ((o : OfferValue) → Transacts (Methods.set_offer o) (set_offer o))
    × Transacts Methods.audit audit
methods-Transacts_example = methods-Transacts toy_env

revoke_key-refuses_example :
    Raises (revoke_key spent).1 (issue toy_env issue_request (revoke_key spent).1)
    × Raises (revoke_key spent).1 (activate toy_env activate_request (revoke_key spent).1)
    × (redeem toy_env second_request (revoke_key spent).1
        ≡ (err (denied key_revoked), (revoke_key spent).1))
revoke_key-refuses_example =
    revoke_key-refuses toy_env spent issue_request activate_request second_request second_args
      facts.good_second facts.revoked_fresh
