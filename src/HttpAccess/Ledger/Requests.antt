-- ===== src/HttpAccess/Ledger/Requests.antt =====
-- The arguments of the ledger's methods, before and after the checks that come before a
-- transaction (examples/http_access/ledger.py).
use gpu_batch_crypto.Prelude.{
  ℕ, ◌+◌, ◌^◌, ◌&&◌, not, Option, none, some, List, [], ◌∷◌, Text, Bytes, Result, ok, err, ◌>>=◌,
  ◌>>◌, raise_if, ltb, leb, if◌then◌else◌, length, map_result,
}
use gpu_batch_crypto.Python.Json.{Json, Items, arr, cons, nil, str, num, null, texts}
use gpu_batch_crypto.Python.Values.{Value}
use gpu_batch_crypto.AccessBook.Checks.{canonical}
use gpu_batch_crypto.AccessBook.Clearing.{sorted, has_duplicate}
use gpu_batch_crypto.HttpAccess.Checks.{
  Error, Offer, Catalog, denied, bad_batch, bad_book, too_many_items, duplicate_resource, mismatch,
  bad_cancellation, duplicate_book, identifier, integer, digest, offer, value_is,
}
use gpu_batch_crypto.HttpAccess.Tables.{Entry}

-- A list of values, or `none` where the argument is no list.
abbrev pub ListValue : Type 0 → Type 0
ListValue A = Option (List A)

-- not isinstance(xs, list) or not 1 <= len(xs) <= most
unfoldable pub bounded_list : {A : Type 0} → ℕ → Error → ListValue A → Result Error (List A)
bounded_list most e none = err e
bounded_list most e (some xs) = if leb 1 (length xs) && leb (length xs) most then ok xs else err e

abbrev pub max_amount : ℕ
max_amount = 10 ^ 12

pub record IssueRequest : Type 0 where
  pub buyer : Value
  pub request_id : Value
  pub books : ListValue (ListValue Value)
  pub max_units : Value
  pub ttl : Value

pub record IssueArgs : Type 0 where
  pub buyer : Text
  pub request_id : Text
  pub manifests : List (List Entry)
  pub max_units : ℕ
  pub ttl : ℕ
  pub fingerprint : Text

to_entry : Text → Offer → Entry
to_entry r o = record { resource = r; content = o.content; terms = o.terms; units = o.units }

-- {"resource": r, **self.offer(r)}
unfoldable pub entry : Catalog → Text → Result Error Entry
unfolding to_entry
entry catalog r = do o ← offer catalog (Value.str r); ok (to_entry r o)

-- One round of the loop over the groups: the manifest of a book and the names as they were given.
unfoldable pub check_group : Catalog → ℕ → List Value → Result Error (List Text × List Entry)
check_group catalog count group = do
  raise_if (ltb 2048 count) (denied too_many_items)
  given ← map_result identifier group
  raise_if (has_duplicate (sorted given)) (denied duplicate_resource)
  manifest ← map_result (entry catalog) (sorted given)
  ok (given, manifest)

-- The loop, with the number of items so far.
unfoldable pub check_groups :
    Catalog → ℕ → List (ListValue Value) → Result Error (List (List Text × List Entry))
unfolding check_group bounded_list
check_groups catalog count [] = ok []
check_groups catalog count (g ∷ groups) = do
  group ← bounded_list 32 (denied bad_book) g
  first ← check_group catalog (count + length group) group
  rest ← check_groups catalog (count + length group) groups
  ok (first ∷ rest)

manifests_of : List (List Text × List Entry) → List (List Entry)
manifests_of [] = []
manifests_of (g ∷ gs) = g.1 ∷ manifests_of gs

books_json : List (List Text × List Entry) → Items
books_json [] = nil
books_json (g ∷ gs) = cons (arr (texts g.0)) (books_json gs)

unfoldable pub check_issue : (Bytes → Bytes) → Catalog → IssueRequest → Result Error IssueArgs
unfolding check_groups bounded_list manifests_of books_json
check_issue sha256 catalog r = do
  buyer ← identifier r.buyer
  request_id ← identifier r.request_id
  max ← integer r.max_units 1 max_amount
  ttl ← integer r.ttl 1 300
  books ← bounded_list 256 (denied bad_batch) r.books
  groups ← check_groups catalog 0 books
  ok (record {
    buyer = buyer;
    request_id = request_id;
    manifests = manifests_of groups;
    max_units = max;
    ttl = ttl;
    fingerprint =
        digest sha256
          (canonical (arr (cons (arr (books_json groups)) (cons (num max) (cons (num ttl) nil)))));
  })

-- An argument that is None is `none`.
pub record SpendRequest : Type 0 where
  pub buyer : Value
  pub request_id : Value
  pub resource : Value
  pub content : Value
  pub terms : Value
  pub max_units : Value
  pub book : Option Value
  pub token : Option Value

pub record SpendArgs : Type 0 where
  pub buyer : Text
  pub request_id : Text
  pub resource : Text
  pub offer : Offer
  pub max_units : ℕ
  pub book : Option Text
  pub token : Option Value
  pub fingerprint : Text

optional_identifier : Option Value → Result Error (Option Text)
optional_identifier none = ok none
optional_identifier (some v) = do t ← identifier v; ok (some t)

optional_json : Option Text → Json
optional_json none = null
optional_json (some t) = str t

spend_json : Option Text → Text → Offer → ℕ → Json
unfolding optional_json
spend_json book resource o max = arr (
    cons (optional_json book)
      (cons (str resource) (cons (str o.content) (cons (str o.terms) (cons (num max) nil)))))

unfoldable pub check_spend : (Bytes → Bytes) → Catalog → SpendRequest → Result Error SpendArgs
unfolding optional_identifier spend_json
check_spend sha256 catalog r = do
  buyer ← identifier r.buyer
  request_id ← identifier r.request_id
  resource ← identifier r.resource
  max ← integer r.max_units 1 max_amount
  book ← optional_identifier r.book
  o ← offer catalog r.resource
  raise_if (not (value_is o.content r.content && value_is o.terms r.terms)) (denied mismatch)
  ok (record {
    buyer = buyer;
    request_id = request_id;
    resource = resource;
    offer = o;
    max_units = max;
    book = book;
    token = r.token;
    fingerprint = digest sha256 (canonical (spend_json book resource o max));
  })

pub record CancelRequest : Type 0 where
  pub buyer : Value
  pub request_id : Value
  pub books : ListValue Value

pub record CancelArgs : Type 0 where
  pub buyer : Text
  pub request_id : Text
  pub books : List Text
  pub fingerprint : Text

unfoldable pub check_cancel : (Bytes → Bytes) → CancelRequest → Result Error CancelArgs
unfolding bounded_list
check_cancel sha256 r = do
  buyer ← identifier r.buyer
  request_id ← identifier r.request_id
  given ← bounded_list 256 (denied bad_cancellation) r.books
  names ← map_result identifier given
  raise_if (has_duplicate (sorted names)) (denied duplicate_book)
  ok (record {
    buyer = buyer;
    request_id = request_id;
    books = sorted names;
    fingerprint = digest sha256 (canonical (arr (texts (sorted names))));
  })
