-- ===== src/AccessBook/Clearing/Requests.antt =====
-- The arguments of the methods, before and after the checks that come before a transaction.
use gpu_batch_crypto.Prelude.{
  ℕ, Bool, false, ◌&&◌, ◌||◌, Option, none, some, List, [], ◌∷◌, Text, Bytes, text_eq, Result, ok,
  err, ◌>>=◌, ◌>>◌, raise_if, leb, if◌then◌else◌, length, any, map_result,
}
use gpu_batch_crypto.Python.Json.{text_le, arr, cons, nil, str, num, texts}
use gpu_batch_crypto.Python.Values.{Value}
use gpu_batch_crypto.AccessBook.Checks.{
  Error, denied, bad_size, duplicate_resource, identifier, integer, sha256_hex, bounded_token,
  fingerprint, max_items, max_units, max_ttl,
}

-- `resources` is `none` where the argument is neither a list nor a tuple.
pub record IssueRequest : Type 0 where
  pub buyer : Value
  pub publisher : Value
  pub resources : Option (List Value)
  pub max_units : Value
  pub request_id : Value
  pub ttl : Value

pub record IssueArgs : Type 0 where
  pub buyer : Text
  pub publisher : Text
  pub resources : List Text
  pub max_units : ℕ
  pub request_id : Text
  pub ttl : ℕ
  pub request_hash : Text

unfoldable pub insert_text : Text → List Text → List Text
insert_text t [] = t ∷ []
insert_text t (u ∷ us) = let rest = u ∷ insert_text t us in if text_le t u then t ∷ u ∷ us else rest

-- sorted(texts)
unfoldable pub sorted : List Text → List Text
unfolding insert_text
sorted [] = []
sorted (t ∷ ts) = insert_text t (sorted ts)

-- len(set(texts)) != len(texts)
unfoldable pub has_duplicate : List Text → Bool
has_duplicate [] = false
has_duplicate (t ∷ ts) = any (text_eq t) ts || has_duplicate ts

-- 1 <= len(resources) <= MAX_ITEMS
unfoldable pub resource_list : Option (List Value) → Result Error (List Value)
resource_list none = err (denied bad_size)
resource_list (some xs) =
    if leb 1 (length xs) && leb (length xs) max_items then ok xs else err (denied bad_size)

-- The sorted resources, each an identifier and none given twice.
unfoldable pub check_resources : Option (List Value) → Result Error (List Text)
unfolding resource_list
check_resources resources = do
  given ← resource_list resources
  names ← map_result identifier given
  raise_if (has_duplicate (sorted names)) (denied duplicate_resource)
  ok (sorted names)

unfoldable pub check_issue : (Bytes → Bytes) → IssueRequest → Result Error IssueArgs
unfolding check_resources
check_issue sha256 r = do
  buyer ← identifier r.buyer
  publisher ← identifier r.publisher
  request_id ← identifier r.request_id
  max ← integer r.max_units 1 max_units
  ttl ← integer r.ttl 1 max_ttl
  resources ← check_resources r.resources
  ok (record {
    buyer = buyer;
    publisher = publisher;
    resources = resources;
    max_units = max;
    request_id = request_id;
    ttl = ttl;
    request_hash = fingerprint sha256 (
        arr (
          cons (str buyer) (
            cons (str publisher)
              (cons (arr (texts resources)) (cons (num max) (cons (num ttl) nil))))));
  })

pub record ActivateRequest : Type 0 where
  pub book : Value
  pub token : Value
  pub buyer : Value
  pub publisher : Value

pub record ActivateArgs : Type 0 where
  pub book : Text
  pub token : Text
  pub buyer : Text
  pub publisher : Text

unfoldable pub check_activate : ActivateRequest → Result Error ActivateArgs
check_activate r = do
  book ← identifier r.book
  buyer ← identifier r.buyer
  publisher ← identifier r.publisher
  token ← bounded_token r.token
  ok (record { book = book; token = token; buyer = buyer; publisher = publisher })

pub record RedeemRequest : Type 0 where
  pub book : Value
  pub resource : Value
  pub buyer : Value
  pub publisher : Value
  pub content_sha256 : Value
  pub terms_sha256 : Value
  pub request_id : Value

pub record RedeemArgs : Type 0 where
  pub book : Text
  pub resource : Text
  pub buyer : Text
  pub publisher : Text
  pub content_sha256 : Text
  pub terms_sha256 : Text
  pub request_id : Text
  pub request_hash : Text

unfoldable pub check_redeem : (Bytes → Bytes) → RedeemRequest → Result Error RedeemArgs
check_redeem sha256 r = do
  book ← identifier r.book
  resource ← identifier r.resource
  buyer ← identifier r.buyer
  publisher ← identifier r.publisher
  request_id ← identifier r.request_id
  content ← sha256_hex r.content_sha256
  terms ← sha256_hex r.terms_sha256
  ok (record {
    book = book;
    resource = resource;
    buyer = buyer;
    publisher = publisher;
    content_sha256 = content;
    terms_sha256 = terms;
    request_id = request_id;
    request_hash = fingerprint sha256 (
        arr (
          cons (str book) (
            cons (str resource) (
              cons (str buyer)
                (cons (str publisher) (cons (str content) (cons (str terms) nil)))))));
  })
