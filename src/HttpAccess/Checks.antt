-- ===== src/HttpAccess/Checks.antt =====
-- The checks of arguments in examples/http_access/ledger.py (`identifier`, `integer`, `digest`,
-- `Ledger.offer`), with the exceptions of the whole file and the catalog.
use gpu_batch_crypto.Prelude.{
  ℕ, Bool, false, ◌&&◌, ◌||◌, Option, none, some, List, [], ◌∷◌, Text, Bytes, text_eq, Result, ok,
  err, ◌>>=◌, ◌==◌, if◌then◌else◌, length, all,
}
use gpu_batch_crypto.Prelude.Int.{pos}
use gpu_batch_crypto.Python.Values
use gpu_batch_crypto.Python.Values.{Value}
use gpu_batch_crypto.AccessBook.Checks.{is_between, hexdigest}

-- What `Denied` was raised for.
pub data Denial : Type 0 where
  bad_identifier bad_integer unknown_content retry_conflict : Denial
  bad_batch bad_book too_many_items duplicate_resource over_budget : Denial
  expired_preparing revoked_preparing no_funds : Denial
  mismatch unavailable expired key_revoked wrong_scope already_redeemed : Denial
  unknown_book bad_cancellation duplicate_book wrong_buyer : Denial

-- Every exception of the transactions: a denial, one that the issuer keys raise,
-- sqlite3.IntegrityError, and the two failures of the audit.
pub data Error : Type 0 where
  denied : Denial → Error
  signing : Values.Error → Error
  integrity buyer_conservation publisher_conservation : Error

-- [a-zA-Z0-9._-]
is_identifier_char : ℕ → Bool
is_identifier_char c =
    is_between b'a' b'z' c
    || is_between b'A' b'Z' c
    || is_between b'0' b'9' c
    || c == b'.'
    || c == b'_'
    || c == b'-'

unfoldable pub identifier : Value → Result Error Text
unfolding is_identifier_char
identifier (Value.str t) =
    if is_between 1 96 (length t) && all is_identifier_char t
    then ok t
    else err (denied bad_identifier)
identifier _ = err (denied bad_identifier)

-- integer(value, low, high)
unfoldable pub integer : Value → ℕ → ℕ → Result Error ℕ
integer (Value.int (pos n)) low high =
    if is_between low high n then ok n else err (denied bad_integer)
integer _ low high = err (denied bad_integer)

-- hashlib.sha256(value.encode()).hexdigest(), over the hash function, of ASCII text
unfoldable pub digest : (Bytes → Bytes) → Text → Text
digest sha256 value = hexdigest (sha256 value)

-- What the catalog says of a resource.
pub record Offer : Type 0 where
  pub content : Text
  pub terms : Text
  pub units : ℕ

-- `self.catalog`: the offers by resource.
abbrev pub Catalog : Type 0
Catalog = List (Text × Offer)

lookup_offer : Text → Catalog → Option Offer
lookup_offer resource [] = none
lookup_offer resource ((r, o) ∷ rest) =
    let found = lookup_offer resource rest in if text_eq r resource then some o else found

or_unknown : Option Offer → Result Error Offer
or_unknown none = err (denied unknown_content)
or_unknown (some o) = ok o

-- `offer(resource)`
unfoldable pub offer : Catalog → Value → Result Error Offer
unfolding lookup_offer or_unknown
offer catalog resource = do r ← identifier resource; or_unknown (lookup_offer r catalog)

-- value == t, of a value of any type
unfoldable pub value_is : Text → Value → Bool
value_is t (Value.str u) = text_eq t u
value_is t _ = false
