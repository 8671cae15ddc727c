-- ===== src/HttpAccess/Signing/Issuer.antt =====
-- `Keys` of examples/http_access/signing.py: the issuer's current key and the pins of all epochs.
use gpu_batch_crypto.Prelude.{
  ℕ, ◌+◌, ◌≡◌, ◌∙◌, Option, none, some, List, [], ◌∷◌, ◌++◌, map, Text, Bytes, text, text_eq,
  Result, ok, err, if◌then◌else◌, length, length-map, arith,
}
use gpu_batch_crypto.Prelude.Int.{pos}
use gpu_batch_crypto.Python.Ints.{to_decimal}
use gpu_batch_crypto.Python.Json.{Json}
use gpu_batch_crypto.Python.Values
use gpu_batch_crypto.Python.Values.{Value, Error, runtime_error}
use gpu_batch_crypto.Jws.{sign_es256}
use gpu_batch_crypto.Jws.Tokens.{sign_es256-Signed}
use gpu_batch_crypto.AccessBook.Checks.{canonical}
use gpu_batch_crypto.Verified
use gpu_batch_crypto.Verified.{Backend, Curve, Signer}
use gpu_batch_crypto.Backends.Cpu.{raw_signature}
use gpu_batch_crypto.HttpAccess.Ledger.{Sign}
use gpu_batch_crypto.HttpAccess.Conserve.{IsComplete}

pub record Keys : Type 0 where
  pub epoch : ℕ
  pub kid : Text
  pub pins : List (Text × Bytes)
  pub signatures : ℕ
  pub batches : List ℕ

-- pins[kid]
unfoldable pub pinned : Text → List (Text × Bytes) → Option Bytes
pinned kid [] = none
pinned kid ((k, p) ∷ rest) = let found = pinned kid rest in if text_eq k kid then some p else found

-- pins[kid] = public
unfoldable pub pin : Text → Bytes → List (Text × Bytes) → List (Text × Bytes)
pin kid public [] = (kid, public) ∷ []
pin kid public ((k, p) ∷ rest) =
    let later = pin kid public rest in
    if text_eq k kid then (kid, public) ∷ rest else (k, p) ∷ later

unfoldable pub kid_of : ℕ → Text
kid_of epoch = text "synthetic-epoch-" ++ to_decimal epoch

-- The next epoch: the one after, or the one that `VerifiedSigner.load_key` gives.
unfoldable pub next_epoch : Option (Result Error ℕ) → Keys → Result Error ℕ
next_epoch none k = ok (k.epoch + 1)
next_epoch (some loaded) k = loaded

unfoldable pub rotated : Bytes → Result Error ℕ → Keys → Result Error Text × Keys
unfolding kid_of pin
rotated public (err e) k = (err e, k)
rotated public (ok n) k =
    (ok (kid_of n), record k { epoch = n; kid = kid_of n; pins = pin (kid_of n) public k.pins })

-- `rotate` to a key with that public key; `loaded` is what the signer of the GPU mode answers.
unfoldable pub rotate : Bytes → Option (Result Error ℕ) → Keys → Result Error Text × Keys
unfolding next_epoch rotated
rotate public loaded k = rotated public (next_epoch loaded k) k

-- `cpu` of every digest, where `ecdsa` gives the scalars under the private key.
unfoldable pub cpu_batch : (Bytes → ℕ × ℕ) → List Bytes → Result Error (List Value)
cpu_batch ecdsa digests = ok (map (λ h. Values.bytes (raw_signature (ecdsa h))) digests)

-- What the signer raises, as `sign_es256` passes it on; VerificationError is a RuntimeError.
passed_on : {A : Type 0} → Result Verified.Error A → Result Error A
passed_on (ok a) = ok a
passed_on (err (Verified.raised e)) = err e
passed_on (err e) = err runtime_error

-- self.gpu.sign(0, digests, expected_epoch=self.epoch): what the signer in that state answers.
unfoldable pub gpu_batch :
    {W : Type 0} → Backend W → Curve → Signer W → ℕ → List Bytes → Result Error (List Value)
unfolding passed_on
gpu_batch backend curve signer epoch digests =
    passed_on
      (Verified.sign curve backend (Values.int (pos 0)) (map Values.bytes digests)
        (Values.int (pos epoch)) signer).0

counted : Result Error (List Text) → Keys → Result Error (Text × List Text) × Keys
counted (err e) k = (err e, k)
counted (ok tokens) k = (
  ok (k.kid, tokens),
  record k { signatures = k.signatures + length tokens; batches = k.batches ++ length tokens ∷ [] },
)

-- `sign`: one token for each of the claims, under the current key id.
unfoldable pub sign :
    (Bytes → Bytes)
    → (List Bytes → Result Error (List Value))
    → List Json
    → Keys
    → Result Error (Text × List Text) × Keys
unfolding counted
sign sha256 batch given k =
    counted
      (sign_es256 sha256 (map (λ c. Values.bytes (canonical c)) given) (Values.str k.kid) batch) k

-- `keys.sign` as the ledger calls it.
unfoldable pub as_sign : (Bytes → Bytes) → (List Bytes → Result Error (List Value)) → Keys → Sign
as_sign sha256 batch k given = (sign sha256 batch given k).0

module _ (sha256 : Bytes → Bytes) (batch : List Bytes → Result Error (List Value)) (k : Keys) where
  counted-ok :
      (r : Result Error (List Text)) {x : Text × List Text} → (counted r k).0 ≡ ok x → r ≡ ok x.1
  unfolding counted
  counted-ok (err e) h = absurd (ground (arith, h))
  counted-ok (ok tokens) h = ground (arith, h)

  -- The issuer keys, whatever signs their batches, keep what the ledger asks of them: they return
  -- one token for each of the claims, or none at all.
  pub sign-IsComplete : IsComplete (as_sign sha256 batch k)
  unfolding as_sign sign
  sign-IsComplete given kid tokens h =
      let items : List Value = map (λ c. Values.bytes (canonical c)) given in
      let made =
        sign_es256-Signed sha256 items (Values.str k.kid) batch
          (counted-ok (sign_es256 sha256 items (Values.str k.kid) batch) h) in
      made.as_many ∙ length-map (λ c. Values.bytes (canonical c)) given
