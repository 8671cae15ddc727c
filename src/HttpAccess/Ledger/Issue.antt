-- ===== src/HttpAccess/Ledger/Issue.antt =====
-- `Ledger.seed`, `Ledger.revoke` and `Ledger.issue` of examples/http_access/ledger.py. `issue`
-- signs between two transactions, so that calls of other threads may come between `issue_read`
-- and `issue_commit`.
use gpu_batch_crypto.Prelude.{
  ℕ, ◌+◌, Bool, false, ◌&&◌, not, Option, none, some, List, [], ◌∷◌, map, Text, Bytes, text,
  text_eq, Result, ok, err, ◌>>=◌, ◌>>◌, raise_if, ltb, leb, ◌==◌, any,
}
use gpu_batch_crypto.Python.Json.{Json, Items, arr, cons, nil, obj, field, end, str, num}
use gpu_batch_crypto.Python.Values
use gpu_batch_crypto.Python.Values.{Value}
use gpu_batch_crypto.Sql.{select_first, select_sum}
use gpu_batch_crypto.AccessBook.Checks.{canonical}
use gpu_batch_crypto.HttpAccess.Checks.{
  Error, Catalog, denied, signing, over_budget, expired_preparing, revoked_preparing, no_funds,
  identifier, integer, digest,
}
use gpu_batch_crypto.HttpAccess.Tables.{
  Entry, Issued, Issue, Book, Item, Account, Db, issue_request, covers, reserve_row,
  update_accounts, insert_account, insert_book, insert_items, insert_issue, add_revoked,
}
use gpu_batch_crypto.HttpAccess.Ledger.Exec.{transaction, written, prior, unless_prior, with_args}
use gpu_batch_crypto.HttpAccess.Ledger.Requests.{IssueRequest, IssueArgs, max_amount, check_issue}

-- What comes from outside in one call of `issue`: the two readings of the clock, the random ids
-- and the hash function.
pub record Issuing : Type 0 where
  pub at : ℕ
  pub later : ℕ
  pub token_hex : ℕ → Text
  pub sha256 : Bytes → Bytes

-- `self.keys.sign`: the key id and a token for each of the claims.
abbrev pub Sign : Type 0
Sign = List Json → Result Values.Error (Text × List Text)

-- What `issue` has ready when its second transaction begins.
pub record Prepared : Type 0 where
  pub buyer : Text
  pub request_id : Text
  pub fingerprint : Text
  pub total : ℕ
  pub at : ℕ
  pub ttl : ℕ
  pub kid : Text
  pub response : List Issued

unfoldable pub check_seed : Value → Value → Result Error (Text × ℕ)
check_seed buyer units = do b ← identifier buyer; n ← integer units 1 max_amount; ok (b, n)

unfoldable pub seed_body : Text × ℕ → Db → Result Error (Unit {0} × Db)
seed_body a db = do db' ← written (insert_account a.0 a.1 db); ok (tt, db')

unfoldable pub seed : Value → Value → Db → Result Error (Unit {0}) × Db
unfolding check_seed
seed buyer units = with_args (check_seed buyer units) (λ a. transaction (seed_body a))

unfoldable pub revoke : Text → Db → Result Error (Unit {0}) × Db
revoke kid = transaction (λ db. ok (tt, add_revoked kid db))

-- sum(x["units"] for x in manifest)
unfoldable pub manifest_units : List Entry → ℕ
manifest_units [] = 0
manifest_units (x ∷ xs) = x.units + manifest_units xs

unfoldable pub total_units : List (List Entry) → ℕ
unfolding manifest_units
total_units [] = 0
total_units (m ∷ ms) = manifest_units m + total_units ms

manifest_json : List Entry → Items
manifest_json [] = nil
manifest_json (x ∷ xs) =
    cons
      (obj (
        field (text "resource") (str x.resource) (
          field (text "content") (str x.content)
            (field (text "terms") (str x.terms) (field (text "units") (num x.units) end)))))
      (manifest_json xs)

-- [secrets.token_hex(16) for _ in books], from the n-th draw
unfoldable pub draw_ids : (ℕ → Text) → ℕ → List (List Entry) → List Text
draw_ids token_hex n [] = []
draw_ids token_hex n (m ∷ ms) = token_hex n ∷ draw_ids token_hex (n + 1) ms

-- The claims of one book.
unfoldable pub claims : (Bytes → Bytes) → IssueArgs → ℕ → Text → List Entry → Json
unfolding manifest_json
claims sha256 a at id manifest = obj (
    field (text "iss") (str (text "local-reference")) (
      field (text "aud") (str (text "publisher")) (
        field (text "sub") (str a.buyer) (
          field (text "iat") (num at) (
            field (text "exp") (num (at + a.ttl)) (
              field (text "jti") (str id) (
                field (text "scope") (str (text "content:read")) (
                  field (text "profile") (str (text "local-http-v1")) (
                    field (text "manifest_sha256")
                      (str (digest sha256 (canonical (arr (manifest_json manifest))))) end)))))))))

-- zip(ids, manifests)
unfoldable pub all_claims :
    (Bytes → Bytes) → IssueArgs → ℕ → List Text → List (List Entry) → List Json
unfolding claims
all_claims sha256 a at [] ms = []
all_claims sha256 a at (id ∷ ids) [] = []
all_claims sha256 a at (id ∷ ids) (m ∷ ms) = claims sha256 a at id m ∷ all_claims sha256 a at ids ms

-- zip(ids, tokens, manifests), which stops at the shortest
unfoldable pub responses : List Text → List Text → List (List Entry) → List Issued
responses (id ∷ ids) (t ∷ ts) (m ∷ ms) =
    record { book = id; token = t; manifest = m } ∷ responses ids ts ms
responses ids ts ms = []

unfoldable pub signed : Result Values.Error (Text × List Text) → Result Error (Text × List Text)
signed (ok r) = ok r
signed (err e) = err (signing e)

-- Between the transactions.
unfoldable pub issue_prepare : Issuing → Sign → IssueArgs → Result Error Prepared
unfolding all_claims signed
issue_prepare env sign a = do
  raise_if (ltb a.max_units (total_units a.manifests)) (denied over_budget)
  let ids = draw_ids env.token_hex 0 a.manifests
  r ← signed (sign (all_claims env.sha256 a env.at ids a.manifests))
  ok (record {
    buyer = a.buyer;
    request_id = a.request_id;
    fingerprint = a.fingerprint;
    total = total_units a.manifests;
    at = env.at;
    ttl = a.ttl;
    kid = r.0;
    response = responses ids r.1 a.manifests;
  })

unfoldable pub new_book : Prepared → Issued → Book
new_book p x = record {
  id = x.book;
  buyer = p.buyer;
  kid = p.kid;
  token = x.token;
  issued = p.at;
  expires = p.at + p.ttl;
  remaining = manifest_units x.manifest;
  closed = false;
}

unfoldable pub to_item : Text → Entry → Item
to_item id x = record {
  book = id;
  resource = x.resource;
  content = x.content;
  terms = x.terms;
  units = x.units;
}

-- The loop that inserts the books and their items.
unfoldable pub insert_books : Prepared → List Issued → Db → Result Error Db
unfolding to_item
insert_books p [] db = ok db
insert_books p (x ∷ xs) db = do
  db₁ ← written (insert_book (new_book p x) db)
  db₂ ← written (insert_items (map (to_item x.book) x.manifest) db₁)
  insert_books p xs db₂

-- How many rows the statement is about.
unfoldable pub row_count : (Account → Bool) → List Account → ℕ
row_count p = select_sum p (λ _. 1)

unfoldable pub issue_row : Prepared → Issue
issue_row p = record {
  buyer = p.buyer;
  request_id = p.request_id;
  fingerprint = p.fingerprint;
  response = p.response;
}

unfoldable pub issue_new : Prepared → ℕ → Db → Result Error (List Issued × Db)
unfolding issue_row
issue_new p later db = do
  raise_if (not (leb p.at later && ltb later (p.at + p.ttl))) (denied expired_preparing)
  raise_if (any (text_eq p.kid) db.revoked) (denied revoked_preparing)
  db₁ ← written (update_accounts (reserve_row p.total) (covers p.buyer p.total) db)
  raise_if (not (row_count (covers p.buyer p.total) db.accounts == 1)) (denied no_funds)
  db₂ ← insert_books p p.response db₁
  db₃ ← written (insert_issue (issue_row p) db₂)
  ok (p.response, db₃)

unfoldable pub issue_row_of : Text → Text → Db → Option Issue
issue_row_of buyer request_id db = select_first (issue_request buyer request_id) db.issues

-- The second transaction.
unfoldable pub commit_body : Prepared → ℕ → Db → Result Error (List Issued × Db)
unfolding issue_row_of
commit_body p later db = do
  earlier ←
      prior (λ r. r.fingerprint) (λ r. r.response) (issue_row_of p.buyer p.request_id db)
        p.fingerprint
  unless_prior earlier (issue_new p later) db

unfoldable pub issue_commit : Prepared → ℕ → Db → Result Error (List Issued) × Db
issue_commit p later = transaction (commit_body p later)

-- The first transaction, which only reads.
unfoldable pub issue_read : IssueArgs → Db → Result Error (Option (List Issued))
unfolding issue_row_of
issue_read a db =
    prior (λ r. r.fingerprint) (λ r. r.response) (issue_row_of a.buyer a.request_id db)
      a.fingerprint

-- A new issue: `between` is what other threads do to the database while this one signs.
unfoldable pub issue_unless :
    Issuing
    → Sign
    → (Db → Db)
    → IssueArgs
    → Option (List Issued)
    → Db
    → Result Error (List Issued) × Db
issue_unless env sign between a (some response) db = (ok response, db)
issue_unless env sign between a none db =
    with_args (issue_prepare env sign a) (λ p. issue_commit p env.later) (between db)

unfoldable pub issue :
    Issuing → Sign → (Db → Db) → Catalog → IssueRequest → Db → Result Error (List Issued) × Db
unfolding issue_unless
issue env sign between catalog r =
    with_args (check_issue env.sha256 catalog r)
      (λ a db. with_args (issue_read a db) (issue_unless env sign between a) db)
