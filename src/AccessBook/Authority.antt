-- ===== src/AccessBook/Authority.antt =====
-- `class Authority` of examples/access_book/engine.py: a token for a payload, and its check.
use gpu_batch_crypto.Prelude.{
  ℕ, ◌+◌, ◌-◌, Bool, false, ◌&&◌, not, Option, none, some, List, [], ◌∷◌, ◌++◌, map, Text, Bytes,
  text, text_eq, Result, ok, err, leb, ltb, length, min,
}
use gpu_batch_crypto.Python.Ints.{int_to_bytes}
use gpu_batch_crypto.Python.Json.{Json, str, num, obj, field, end}
use gpu_batch_crypto.Python.Values
use gpu_batch_crypto.Core.{order}
use gpu_batch_crypto.Jws.{sign_es256}
use gpu_batch_crypto.AccessBook.Checks.{Error, signing, policy, bad_token, canonical, max_token}
use gpu_batch_crypto.AccessBook.Tables.{Claims}
use gpu_batch_crypto.AccessBook.Exec.{Effects, Env, Exec, deny_if, ◌>>◌}

abbrev pub issuer : Text
issuer = text "access-book.example"

abbrev pub key_id : Text
key_id = text "evaluation-key-1"

abbrev pub profile : Text
profile = text "funded-access-book-v1"

-- The claims as the JSON object that is signed.
unfoldable pub claims_json : Claims → Json
claims_json c = obj (
    field (text "iss") (str issuer) (
      field (text "aud") (str c.aud) (
        field (text "sub") (str c.sub) (
          field (text "iat") (num c.iat) (
            field (text "exp") (num c.exp) (
              field (text "jti") (str c.jti) (
                field (text "profile") (str profile) (
                  field (text "scope") (str (text "content:read")) (
                    field (text "manifest_sha256") (str c.manifest_sha256) (
                      field (text "count") (num c.count)
                        (field (text "reserved_micro_usd") (num c.reserved_micro_usd) end)))))))))))

-- {"alg": "ES256", "kid": KEY_ID}
unfoldable pub expected_header : Json
expected_header =
    obj (field (text "alg") (str (text "ES256")) (field (text "kid") (str key_id) end))

module _ (env : Env) where
  -- The raw signature with the low of the two values of s.
  unfoldable pub raw_signature : ℕ × ℕ → Bytes
  raw_signature (r, s) = int_to_bytes 32 r ++ int_to_bytes 32 (min s (order - s))

  sign_digests : ℕ → List Bytes → Result Values.Error (List Values.Value)
  unfolding raw_signature
  sign_digests n digests =
      ok (map (λ d. Values.bytes (raw_signature (env.private_sign n d))) digests)

  -- The token, or the exception of `sign_es256`; the first of a list of one.
  only_token : Result Values.Error (List Text) → Result Error Text
  only_token (ok (token ∷ rest)) = ok token
  only_token (ok []) = err (signing Values.type_error)
  only_token (err e) = err (signing e)

  -- The counter counts the tokens that were made.
  count_signature : Result Error Text → Effects → Effects
  count_signature (ok token) e = record e {
    signings = e.signings + 1;
    signatures = e.signatures + 1;
  }
  count_signature (err x) e = record e { signings = e.signings + 1 }

  unfoldable pub sign : Bytes → Exec Text
  unfolding sign_digests only_token count_signature
  sign payload s =
      let result = only_token (
        sign_es256 env.sha256 (Values.bytes payload ∷ []) (Values.str key_id)
          (sign_digests s.effects.signings)) in
      (result, record s { effects = count_signature result s.effects })

  -- Whether the decoded token is the expected one: the exact header, the exact claims, in time.
  unfoldable pub is_expected : Option (Json × Json) → Claims → ℕ → Bool
  unfolding expected_header claims_json
  is_expected none expected now = false
  is_expected (some (claims, header)) expected now =
      text_eq (canonical header) (canonical expected_header)
      && text_eq (canonical claims) (canonical (claims_json expected))
      && leb expected.iat now
      && ltb now expected.exp

  unfoldable pub count_verification : Exec (Unit {0})
  count_verification s = (
    ok tt,
    record s { effects = record s.effects { verifications = s.effects.verifications + 1 } },
  )

  -- Every failure inside the `try` is raised again as one denial.
  unfoldable pub verify : Text → Claims → ℕ → Exec (Unit {0})
  unfolding count_verification
  verify token expected now = do
    deny_if (ltb max_token (length token)) bad_token
    deny_if (not (is_expected (env.jwt_decode token expected.aud) expected now)) policy
    count_verification
