-- ===== src/AccessBook/Checks.antt =====
-- The checks of arguments in examples/access_book/engine.py: `identifier`, `integer`, `sha256` and
-- `Offer.validate`, with the exceptions of the whole file.
use gpu_batch_crypto.Prelude.{
  ℕ, ◌+◌, ◌/◌, ◌%◌, ◌^◌, Bool, ◌&&◌, ◌||◌, [], ◌∷◌, Text, Bytes, text, Result, ok, err, ◌>>=◌, ltb,
  leb, ◌==◌, if◌then◌else◌, length, all,
}
use gpu_batch_crypto.Prelude.Int.{pos}
use gpu_batch_crypto.Python.Json.{Json, str, num, obj, field, end, dumps, sort_keys}
use gpu_batch_crypto.Python.Values
use gpu_batch_crypto.Python.Values.{Value}

-- What `Denied` was raised for.
pub data Denial : Type 0 where
  bad_identifier bad_integer bad_sha256 bad_token bad_size duplicate_resource : Denial
  policy key_revoked issue_conflict no_offer over_budget no_funds : Denial
  unavailable wrong_token redeem_conflict wrong_scope already_redeemed unknown_book : Denial

-- Every exception: a denial, one that the token builder raises, sqlite3.IntegrityError, and the two
-- failures of the audit.
pub data Error : Type 0 where
  denied : Denial → Error
  signing : Values.Error → Error
  integrity buyer_conservation publisher_conservation : Error

abbrev pub max_items : ℕ
max_items = 256

abbrev pub max_units : ℕ
max_units = 10 ^ 12

abbrev pub max_ttl : ℕ
max_ttl = 300

abbrev pub max_token : ℕ
max_token = 4096

abbrev pub is_between : ℕ → ℕ → ℕ → Bool
is_between lo hi c = leb lo c && leb c hi

-- [a-zA-Z0-9._:/-]
is_identifier_char : ℕ → Bool
is_identifier_char c =
    is_between b'a' b'z' c
    || is_between b'A' b'Z' c
    || is_between b'0' b'9' c
    || c == b'.'
    || c == b'_'
    || c == b':'
    || c == b'/'
    || c == b'-'

unfoldable pub is_identifier : Text → Bool
unfolding is_identifier_char
is_identifier t = is_between 1 128 (length t) && all is_identifier_char t

unfoldable pub identifier : Value → Result Error Text
unfolding is_identifier
identifier (Value.str t) = if is_identifier t then ok t else err (denied bad_identifier)
identifier _ = err (denied bad_identifier)

-- `integer(value, minimum)`, with the default maximum or another.
unfoldable pub integer : Value → ℕ → ℕ → Result Error ℕ
integer (Value.int (pos n)) lo hi = if is_between lo hi n then ok n else err (denied bad_integer)
integer _ lo hi = err (denied bad_integer)

-- [0-9a-f]{64}
unfoldable pub is_sha256 : Text → Bool
is_sha256 t = length t == 64 && all (λ c. is_between b'0' b'9' c || is_between b'a' b'f' c) t

unfoldable pub sha256_hex : Value → Result Error Text
unfolding is_sha256
sha256_hex (Value.str t) = if is_sha256 t then ok t else err (denied bad_sha256)
sha256_hex _ = err (denied bad_sha256)

-- not isinstance(token, str) or len(token) > 4096
unfoldable pub bounded_token : Value → Result Error Text
bounded_token (Value.str t) = if ltb max_token (length t) then err (denied bad_token) else ok t
bounded_token _ = err (denied bad_token)

-- json.dumps(value, sort_keys=True, separators=(",", ":"))
unfoldable pub canonical : Json → Bytes
canonical value = dumps (sort_keys value)

hex_char : ℕ → ℕ
hex_char n = if ltb n 10 then b'0' + n else 87 + n

unfoldable pub hexdigest : Bytes → Text
unfolding hex_char
hexdigest [] = []
hexdigest (b ∷ bs) = hex_char (b / 16) ∷ hex_char (b % 16) ∷ hexdigest bs

-- hashlib.sha256(canonical(value)).hexdigest(), over the hash function.
unfoldable pub fingerprint : (Bytes → Bytes) → Json → Text
unfolding canonical hexdigest
fingerprint sha256 value = hexdigest (sha256 (canonical value))

-- An offer as a caller passes it.
pub record OfferValue : Type 0 where
  pub publisher : Value
  pub resource : Value
  pub content_sha256 : Value
  pub terms_sha256 : Value
  pub units : Value
  pub valid_until : Value

-- An offer that has been validated, and a row of the table `offers`.
pub record Offer : Type 0 where
  pub publisher : Text
  pub resource : Text
  pub content_sha256 : Text
  pub terms_sha256 : Text
  pub units : ℕ
  pub valid_until : ℕ

unfoldable pub validate : OfferValue → Result Error Offer
unfolding identifier integer sha256_hex
validate o = do
  p ← identifier o.publisher
  r ← identifier o.resource
  c ← sha256_hex o.content_sha256
  t ← sha256_hex o.terms_sha256
  u ← integer o.units 1 max_units
  v ← integer o.valid_until 1 max_units
  ok (record {
    publisher = p;
    resource = r;
    content_sha256 = c;
    terms_sha256 = t;
    units = u;
    valid_until = v;
  })

-- dict(row) of an offer.
unfoldable pub offer_json : Offer → Json
offer_json o = obj (
    field (text "publisher") (str o.publisher) (
      field (text "resource") (str o.resource) (
        field (text "content_sha256") (str o.content_sha256) (
          field (text "terms_sha256") (str o.terms_sha256) (
            field (text "units") (num o.units)
              (field (text "valid_until") (num o.valid_until) end))))))
