-- ===== src/Jws/Tests.antt =====
-- Tokens of two payloads.
use gpu_batch_crypto.Prelude.{
  ◌≡◌, refl, List, [], ◌∷◌, ◌++◌, map, Text, Bytes, text, Result, ok, err, take,
}
use gpu_batch_crypto.Python.Ints.{int_to_bytes, int_from_bytes}
use gpu_batch_crypto.Python.Base64.{symbol, urlsafe_b64encode, rstrip_equals}
use gpu_batch_crypto.Python.Json.{dumps}
use gpu_batch_crypto.Python.Values.{Value, bytes, str, Error, is_ascii, is_printable}
use gpu_batch_crypto.Core.{as_bytes, check_batch, check_messages}
use gpu_batch_crypto.Core.Bounds.{InBounds, check_messages-bounds}
use gpu_batch_crypto.Jws.{
  b64, is_label, check_label, scalar_r, scalar_s, is_low_s, check_signature, header, signing_input,
  join_tokens, sign_es256,
}
use gpu_batch_crypto.Jws.Tokens.{Signed, sign_es256-Signed}

abbrev toy_sha256 : Bytes → Bytes
toy_sha256 b = take 32 b

abbrev payloads : List Bytes
payloads = (1 ∷ 2 ∷ []) ∷ (3 ∷ []) ∷ []

abbrev items : List Value
items = map bytes payloads

abbrev kid : Value
kid = str (107 ∷ [])

-- Every signature has both scalars 1.
abbrev ones : List Bytes → Result Error (List Value)
ones digests = ok (map (λ d. bytes (int_to_bytes 32 1 ++ int_to_bytes 32 1)) digests)

abbrev tokens_of : Result Error (List Text) → List Text
tokens_of (ok ts) = ts
tokens_of (err e) = []

abbrev tokens : List Text
tokens = tokens_of (sign_es256 toy_sha256 items kid ones)

checked : check_messages items ≡ ok payloads
unfolding check_messages check_batch
checked = refl

signed : sign_es256 toy_sha256 items kid ones ≡ ok tokens
unfolding sign_es256 check_label is_label is_ascii is_printable check_messages check_batch
    check_signature as_bytes is_low_s scalar_r scalar_s int_from_bytes int_to_bytes header
    signing_input join_tokens b64 urlsafe_b64encode symbol rstrip_equals dumps text
signed = refl

check_messages-bounds_example : InBounds items payloads
check_messages-bounds_example = check_messages-bounds items checked

sign_es256-Signed_example : Signed toy_sha256 items kid ones tokens
sign_es256-Signed_example = sign_es256-Signed toy_sha256 items kid ones signed
