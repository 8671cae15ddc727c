-- ===== src/HttpAccess/Signing/Consumer.antt =====
-- `Consumer` of examples/http_access/signing.py: tokens that are verified once and then kept.
use gpu_batch_crypto.Prelude.{
  ℕ, ◌+◌, Bool, false, ◌&&◌, not, Option, none, some, List, [], ◌∷◌, ◌++◌, Text, Bytes, text,
  text_eq, Result, ok, err, ◌>>=◌, ◌>>◌, raise_if, leb, ◌==◌, if◌then◌else◌, length,
}
use gpu_batch_crypto.Python.Json.{Json}
use gpu_batch_crypto.Python.Values.{Value}
use gpu_batch_crypto.AccessBook.Checks.{is_between}
use gpu_batch_crypto.HttpAccess.Signing.Issuer.{pinned}

-- A dictionary: its keys are distinct.
abbrev pub Claims : Type 0
Claims = List (Text × Json)

-- PyJWT: `jwt.get_unverified_header`, and `jwt.decode` under a key, with the algorithm, the issuer,
-- the audience and the options that the source gives. Both give `none` where they raise.
pub record Jwt : Type 0 where
  pub header : Text → Option Claims
  pub decode : Text → Bytes → Option Claims

-- What `Denied` was raised for. `Denied` is a ValueError, so that the `except` clause turns
-- "untrusted key or header" into "invalid signature or claims".
pub data Refusal : Type 0 where
  bad_token not_genuine wrong_holder wrong_profile : Refusal

pub record Consumer : Type 0 where
  pub cache : List (Text × Claims)
  pub verifications : ℕ

-- d.get(key)
unfoldable pub get : {A : Type 0} → Text → List (Text × A) → Option A
get key [] = none
get key ((k, v) ∷ rest) = let found = get key rest in if text_eq k key then some v else found

unfoldable pub as_text : Option Json → Option Text
as_text (some (Json.str t)) = some t
as_text _ = none

-- d.get(key) == t
unfoldable pub says : Text → Text → Claims → Bool
unfolding as_text
says key t d = elim (as_text (get key d)) [ none ↦ false | some u ↦ text_eq u t ]

-- header == {"alg": "ES256", "kid": kid}, of a header with that kid
unfoldable pub is_es256 : Text → Claims → Bool
is_es256 kid d = length d == 2 && says (text "alg") (text "ES256") d && says (text "kid") kid d

-- The pinned key under which the token is decoded. A `kid` that is not a text is not pinned.
unfoldable pub signing_key : List (Text × Bytes) → Claims → Option Bytes
signing_key pins d = elim (as_text (get (text "kid") d)) [
  | none ↦ none
  | some kid ↦ (if is_es256 kid d then pinned kid pins else none)
]

unfoldable pub decode_under : Jwt → Text → Option Bytes → Option Claims
decode_under jwt token none = none
decode_under jwt token (some key) = jwt.decode token key

unfoldable pub decode_by : Jwt → List (Text × Bytes) → Text → Option Claims → Option Claims
decode_by jwt pins token none = none
decode_by jwt pins token (some header) = decode_under jwt token (signing_key pins header)

-- The `try` block.
unfoldable pub decoded : Jwt → List (Text × Bytes) → Text → Option Claims
decoded jwt pins token = decode_by jwt pins token (jwt.header token)

-- cache.clear() at 4096 entries, then cache[token] = claims, of a token that is not in it
unfoldable pub kept : Text → Claims → List (Text × Claims) → List (Text × Claims)
kept token claims cache =
    if leb 4096 (length cache) then (token, claims) ∷ [] else cache ++ (token, claims) ∷ []

unfoldable pub remember : Text → Claims → Consumer → Consumer
remember token claims c = record {
  cache = kept token claims c.cache;
  verifications = c.verifications + 1;
}

-- The claims of a token, cached or decoded.
unfoldable pub fetched :
    Text → Option Claims → Option Claims → Consumer → Result Refusal Claims × Consumer
fetched token (some claims) found c = (ok claims, c)
fetched token none none c = (err not_genuine, c)
fetched token none (some claims) c = (ok claims, remember token claims c)

unfoldable pub fetch :
    Jwt → List (Text × Bytes) → Text → Consumer → Result Refusal Claims × Consumer
unfolding fetched
fetch jwt pins token c = fetched token (get token c.cache) (decoded jwt pins token) c

-- The two tests of the claims.
unfoldable pub check_claims : Text → Text → Claims → Result Refusal Claims
check_claims buyer book claims = do
  raise_if (not (says (text "sub") buyer claims && says (text "jti") book claims)) wrong_holder
  raise_if
      (not (
        says (text "scope") (text "content:read") claims
        && says (text "profile") (text "local-http-v1") claims))
      wrong_profile
  ok claims

-- `verify` of a text of allowed length.
unfoldable pub verify_text :
    Jwt → List (Text × Bytes) → Text → Text → Text → Consumer → Result Refusal Claims × Consumer
unfolding check_claims
verify_text jwt pins token buyer book c =
    let (r, c') = fetch jwt pins token c in (r >>= check_claims buyer book, c')

unfoldable pub verify :
    Jwt → List (Text × Bytes) → Value → Text → Text → Consumer → Result Refusal Claims × Consumer
unfolding fetch
verify jwt pins (Value.str token) buyer book c =
    if is_between 1 4096 (length token)
    then verify_text jwt pins token buyer book c
    else (err bad_token, c)
verify jwt pins _ buyer book c = (err bad_token, c)
