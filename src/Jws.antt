-- ===== src/Jws.antt =====
-- Compact ES256 tokens (python/batchcrypto/jws.py). SHA-256 is a parameter, and so is the callback
-- that signs digests: a function into what it returns, a value of any type for each signature.
pub mod Tokens
pub mod Tests
use gpu_batch_crypto.Prelude.{
  ℕ, suc, ◌+◌, ◌-◌, ◌*◌, ◌/◌, Bool, true, false, ◌&&◌, ◌||◌, not, List, [], ◌∷◌, ◌++◌, map, Text,
  Bytes, text, Result, ok, err, ◌>>=◌, ◌>>◌, raise_if, ltb, leb, ◌==◌, if◌then◌else◌, length, take,
  drop, map_result,
}
use gpu_batch_crypto.Python.Ints.{int_from_bytes}
use gpu_batch_crypto.Python.Base64.{urlsafe_b64encode, rstrip_equals}
use gpu_batch_crypto.Python.Json.{Json, str, obj, field, end, dumps}
use gpu_batch_crypto.Python.Values.{Value, Error, value_error, type_error, is_ascii, is_printable}
use gpu_batch_crypto.Core.{order, check_batch, check_messages, as_bytes}

-- `_b64`: base64url with no padding.
unfoldable pub b64 : Bytes → Text
b64 value = rstrip_equals (urlsafe_b64encode value)

-- 1..128 printable ASCII characters.
unfoldable pub is_label : Text → Bool
unfolding is_ascii is_printable
is_label t = leb 1 (length t) && leb (length t) 128 && is_ascii t && is_printable t

unfoldable pub check_label : Value → Result Error Text
unfolding is_label
check_label (Value.str t) = if is_label t then ok t else err value_error
check_label _ = err value_error

-- The two scalars of a raw signature r || s.
unfoldable pub scalar_r : Bytes → ℕ
scalar_r sig = int_from_bytes (take 32 sig)

unfoldable pub scalar_s : Bytes → ℕ
scalar_s sig = int_from_bytes (drop 32 sig)

-- Both scalars are in range, and s is low.
unfoldable pub is_low_s : Bytes → Bool
is_low_s sig =
    ltb 0 (scalar_r sig)
    && ltb (scalar_r sig) order
    && ltb 0 (scalar_s sig)
    && leb (scalar_s sig) (order / 2)

-- One output of the callback.
unfoldable pub check_signature : Value → Result Error Bytes
unfolding as_bytes
check_signature value = do
  sig ← as_bytes value
  raise_if (not (length sig == 64)) value_error
  raise_if (not (is_low_s sig)) value_error
  ok sig

-- The protected header {"alg":"ES256","kid":key_id}, encoded.
unfoldable pub header : Text → Text
header key_id =
    b64
      (dumps (obj (field (text "alg") (str (text "ES256")) (field (text "kid") (str key_id) end))))

-- What is signed: the header and one payload.
unfoldable pub signing_input : Text → Bytes → Text
signing_input head payload = head ++ b'.' ∷ b64 payload

-- zip(inputs, signatures), each joined into a token
unfoldable pub join_tokens : List Text → List Bytes → List Text
join_tokens (i ∷ is) (s ∷ ss) = (i ++ b'.' ∷ b64 s) ∷ join_tokens is ss
join_tokens [] ss = []
join_tokens (i ∷ is) [] = []

unfoldable pub sign_es256 :
    (Bytes → Bytes)
    → List Value
    → Value
    → (List Bytes → Result Error (List Value))
    → Result Error (List Text)
unfolding check_label signing_input check_signature join_tokens
sign_es256 sha256 items key_id sign_digests = do
  kid ← check_label key_id
  payloads ← check_messages items
  let inputs = map (signing_input (header kid)) payloads
  returned ← sign_digests (map sha256 inputs)
  outputs ← check_batch returned
  raise_if (not (length outputs == length inputs)) value_error
  signatures ← map_result check_signature outputs
  ok (join_tokens inputs signatures)
