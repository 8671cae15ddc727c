-- ===== src/Backends/Signatures.antt =====
-- The signatures of `Cpu.sign` (python/batchcrypto/__init__.py), as `sign_es256`
-- (python/batchcrypto/jws.py) checks them.
use gpu_batch_crypto.Prelude.{
  ℕ, zero, suc, ◌-◌, ◌<◌, ◌≡◌, refl, ◌∙◌, ap, true, List, [], ◌∷◌, ◌++◌, map, min, Bytes, ok,
  Returns, Returns-bind, Returns-ok, map_result, length, length-append, take, drop, arith,
}
use gpu_batch_crypto.Python.Ints.{
  int_from_bytes, int_to_bytes, int_from_bytes-int_to_bytes, length-int_to_bytes, capacity,
}
use gpu_batch_crypto.Python.Values.{Value, bytes}
use gpu_batch_crypto.Core.{order, as_bytes, check_digests}
use gpu_batch_crypto.Jws.{check_signature, is_low_s, scalar_r, scalar_s}
use gpu_batch_crypto.Backends.Cpu.{Openssl, key_bytes, raw_signature, sign}

take-append : (n : ℕ) (xs ys : Bytes) → length xs ≡ n → take n (xs ++ ys) ≡ xs
take-append zero [] ys h = refl
take-append zero (x ∷ xs) ys h = absurd (omega (arith, h))
take-append (suc n) [] ys h = absurd (omega (arith, h))
take-append (suc n) (x ∷ xs) ys h = ap (λ t. x ∷ t) (take-append n xs ys (omega (arith, h)))

drop-append : (n : ℕ) (xs ys : Bytes) → length xs ≡ n → drop n (xs ++ ys) ≡ ys
drop-append zero [] ys h = refl
drop-append zero (x ∷ xs) ys h = absurd (omega (arith, h))
drop-append (suc n) [] ys h = absurd (omega (arith, h))
drop-append (suc n) (x ∷ xs) ys h = drop-append n xs ys (omega (arith, h))

-- A pair of scalars in range.
abbrev pub InRange : ℕ × ℕ → Type 0
InRange sig = (0 < sig.0) × (sig.0 < order) × (0 < sig.1) × (sig.1 < order)

module _ (r s : ℕ) where
  pub length-raw_signature : length (raw_signature (r, s)) ≡ 64
  unfolding raw_signature
  length-raw_signature = omega (
    arith,
    length-append (int_to_bytes 32 r) (int_to_bytes 32 (min s (order - s))),
    length-int_to_bytes 32 r,
    length-int_to_bytes 32 (min s (order - s)),
  )

  pub scalar_r-raw : r < order → scalar_r (raw_signature (r, s)) ≡ r
  unfolding raw_signature scalar_r capacity
  scalar_r-raw h =
      ap int_from_bytes (
        take-append 32 (int_to_bytes 32 r) (int_to_bytes 32 (min s (order - s)))
          (length-int_to_bytes 32 r))
      ∙ int_from_bytes-int_to_bytes 32 r (omega (arith, h))

  pub scalar_s-raw : s < order → scalar_s (raw_signature (r, s)) ≡ min s (order - s)
  unfolding raw_signature scalar_s capacity
  scalar_s-raw h =
      ap int_from_bytes (
        drop-append 32 (int_to_bytes 32 r) (int_to_bytes 32 (min s (order - s)))
          (length-int_to_bytes 32 r))
      ∙ int_from_bytes-int_to_bytes 32 (min s (order - s)) (omega (arith, h))

  is_low_s-raw : InRange (r, s) → is_low_s (raw_signature (r, s)) ≡ true
  unfolding is_low_s
  is_low_s-raw (r_low, r_high, s_low, s_high) =
      rw (scalar_r-raw r_high, scalar_s-raw s_high) (ground (arith, r_low, r_high, s_low, s_high))

check_signature-raw :
    (r s : ℕ)
    → InRange (r, s)
    → check_signature (bytes (raw_signature (r, s))) ≡ ok (raw_signature (r, s))
unfolding check_signature as_bytes
check_signature-raw r s h = rw (is_low_s-raw r s h) (ground (arith, length-raw_signature r s))

all-checked :
    (ecdsa : Bytes → ℕ × ℕ)
    → ((h : Bytes) → InRange (ecdsa h))
    → (hs : List Bytes)
    → map_result check_signature (map bytes (map (λ h. raw_signature (ecdsa h)) hs))
      ≡ ok (map (λ h. raw_signature (ecdsa h)) hs)
all-checked ecdsa range [] = refl
all-checked ecdsa range (h ∷ hs) =
    rw (check_signature-raw (ecdsa h).0 (ecdsa h).1 (range h), all-checked ecdsa range hs) refl

module _ (o : Openssl) (key : Value) (digests : List Value)
    (range : (d : ℕ) (h : Bytes) → InRange (o.ecdsa d h)) where
  abbrev Accepted : List Bytes → Type 0
  Accepted sigs = map_result check_signature (map bytes sigs) ≡ ok sigs

  sign-Accepted : Returns Accepted (sign o key digests)
  unfolding sign
  sign-Accepted = Returns-bind Accepted (check_digests key digests) _ (λ hs _.
      all-checked (o.ecdsa (int_from_bytes (key_bytes key)))
        (range (int_from_bytes (key_bytes key))) hs)

-- With ECDSA scalars in range, sign_es256 accepts every signature that Cpu.sign returns, as it is:
-- 64 bytes with the lower of the two values of s.
pub sign-check_signature :
    (o : Openssl) (key : Value) (digests : List Value) {sigs : List Bytes}
    → ((d : ℕ) (h : Bytes) → InRange (o.ecdsa d h))
    → sign o key digests ≡ ok sigs
    → map_result check_signature (map bytes sigs) ≡ ok sigs
sign-check_signature o key digests range =
    Returns-ok (Accepted o key digests range) _ (sign-Accepted o key digests range)
