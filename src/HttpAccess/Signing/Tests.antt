-- ===== src/HttpAccess/Signing/Tests.antt =====
-- Runs of the issuer keys and of the consumer of examples/http_access/signing.py.
use gpu_batch_crypto.Prelude.{
  ◌≡◌, refl, none, some, List, [], ◌∷◌, Text, Bytes, text, text_eq, Result, ok, err, length, take,
  arith,
}
use gpu_batch_crypto.Python.Base64.{symbol, urlsafe_b64encode, rstrip_equals}
use gpu_batch_crypto.Python.Ints.{int_from_bytes, int_to_bytes, to_decimal}
use gpu_batch_crypto.Python.Json.{Json, obj, field, end, str, num, dumps, sort_keys}
use gpu_batch_crypto.Python.Values.{Value, Error, is_ascii, is_printable}
use gpu_batch_crypto.Core.{as_bytes, check_batch, check_messages}
use gpu_batch_crypto.Jws.{
  b64, is_label, check_label, scalar_r, scalar_s, is_low_s, check_signature, header, signing_input,
  join_tokens, sign_es256,
}
use gpu_batch_crypto.AccessBook.Checks.{canonical, is_between}
use gpu_batch_crypto.Backends.Cpu.{raw_signature}
use gpu_batch_crypto.HttpAccess.Signing.Issuer.{
  Keys, pinned, kid_of, next_epoch, rotated, rotate, cpu_batch, sign, as_sign, sign-IsComplete,
}
use gpu_batch_crypto.HttpAccess.Signing.Consumer
use gpu_batch_crypto.HttpAccess.Signing.Consumer.{
  Claims, Jwt, get, as_text, says, is_es256, signing_key, decode_under, decode_by, decoded, kept,
  remember, fetched, fetch, check_claims, verify_text, verify,
}
use gpu_batch_crypto.HttpAccess.Signing.Trust.{
  IsTrusted, Accepted, verify-Accepted, verify-IsTrusted,
}

abbrev first : Text
first = text "synthetic-epoch-1"

abbrev issuer : Keys
issuer = record {
  epoch = 1;
  kid = first;
  pins = (first, 7 ∷ []) ∷ [];
  signatures = 0;
  batches = [];
}

abbrev toy_sha256 : Bytes → Bytes
toy_sha256 b = take 32 b

-- Every signature has both scalars 1.
abbrev batch : List Bytes → Result Error (List Value)
batch = cpu_batch (λ _. (1, 1))

abbrev asked : List Json
asked = obj (field (text "jti") (str (text "b")) end) ∷ num 5 ∷ []

abbrev answered : Result Error (Text × List Text) → Text × List Text
answered (ok x) = x
answered (err e) = ([], [])

abbrev answer : Text × List Text
answer = answered (as_sign toy_sha256 batch issuer asked)

signs : as_sign toy_sha256 batch issuer asked ≡ ok (answer.0, answer.1)
unfolding as_sign sign sign_es256 check_label is_label is_ascii is_printable check_messages
    check_batch check_signature as_bytes is_low_s scalar_r scalar_s int_from_bytes int_to_bytes
    header signing_input join_tokens b64 urlsafe_b64encode symbol rstrip_equals dumps text canonical
    sort_keys cpu_batch raw_signature to_decimal text_eq
signs = refl

sign-IsComplete_example : length answer.1 ≡ 2
sign-IsComplete_example = sign-IsComplete toy_sha256 batch issuer asked answer.0 answer.1 signs

rotates : (rotate (9 ∷ []) none issuer).0 ≡ ok (text "synthetic-epoch-2")
unfolding rotate rotated next_epoch kid_of to_decimal text
rotates = refl

abbrev granted : Claims
granted =
    (text "sub", str (text "alice"))
    ∷ (text "jti", str (text "b"))
    ∷ (text "scope", str (text "content:read"))
    ∷ (text "profile", str (text "local-http-v1"))
    ∷ []

-- Every token has the issuer's header, and its signature is right under the key 7.
abbrev jwt : Jwt
jwt = record {
  header = λ t. some ((text "alg", str (text "ES256")) ∷ (text "kid", str first) ∷ []);
  decode = λ t key. elim key [ [] ↦ none | x ∷ xs ↦ some granted ];
}

abbrev nobody : Consumer.Consumer
nobody = record { cache = []; verifications = 0 }

nobody-IsTrusted : IsTrusted jwt issuer.pins []
unfolding IsTrusted
nobody-IsTrusted = (tt, omega arith)

accepts :
    (verify jwt issuer.pins (Value.str (text "t")) (text "alice") (text "b") nobody).0 ≡ ok granted
unfolding verify verify_text fetch fetched remember kept get as_text says is_es256 signing_key
    decode_under decode_by decoded check_claims is_between pinned text_eq text
accepts = refl

-- Another buyer is refused.
refuses :
    (verify jwt issuer.pins (Value.str (text "t")) (text "bob") (text "b") nobody).0
    ≡ err Consumer.wrong_holder
unfolding verify verify_text fetch fetched remember kept get as_text says is_es256 signing_key
    decode_under decode_by decoded check_claims is_between pinned text_eq text
refuses = refl

verify-Accepted_example :
    Accepted jwt issuer.pins (Value.str (text "t")) (text "alice") (text "b") granted
verify-Accepted_example =
    verify-Accepted jwt issuer.pins (Value.str (text "t")) (text "alice") (text "b") nobody
      nobody-IsTrusted accepts

verify-IsTrusted_example :
    IsTrusted jwt issuer.pins
      ((verify jwt issuer.pins (Value.str (text "t")) (text "alice") (text "b") nobody).1).cache
verify-IsTrusted_example =
    verify-IsTrusted jwt issuer.pins (Value.str (text "t")) (text "alice") (text "b") nobody
      nobody-IsTrusted
