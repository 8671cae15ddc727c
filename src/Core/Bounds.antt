-- ===== src/Core/Bounds.antt =====
-- What the input checks of python/batchcrypto/__init__.py let through.
use gpu_batch_crypto.Prelude.{
  raise_if-ok, ℕ, zero, suc, ◌+◌, ◌*◌, ◌≤◌, ◌≡◌, refl, sym, ap, ◌∙◌, inl, inr, List, [], ◌∷◌, map,
  Bytes, ok, raise_if, map_result, Returns, Returns-bind, Returns-ok, arith, ltb_false→le, ltb,
  Bool-cases, length, take, All, sum, length-take,
}
use gpu_batch_crypto.Python.Values
use gpu_batch_crypto.Python.Values.{Value, bytes, Error, value_error}
use gpu_batch_crypto.Core.{
  max_batch, max_payload, max_work, as_bytes, check_batch, as_message, check_messages,
}

take-all {ℓ} : {A : Type ℓ} (n : ℕ) (xs : List A) → length xs ≤ n → take n xs ≡ xs
take-all zero [] h = refl
take-all zero (x ∷ xs) h = absurd (omega (arith, h))
take-all (suc n) [] h = refl
take-all (suc n) (x ∷ xs) h = ap (λ t. x ∷ t) (take-all n xs (omega (arith, h)))

pub check_batch-ok {ℓ} :
    {A : Type ℓ} (items : List A) {batch : List A}
    → check_batch items ≡ ok batch
    → (batch ≡ items) × (length items ≤ max_batch)
unfolding check_batch
check_batch-ok items {batch} h =
    elim (Bool-cases (ltb max_batch (length (take (max_batch + 1) items)))) [
      | inl long ↦ absurd (ground (arith, h, long))
      | inr within ↦
          let short : length items ≤ max_batch =
            ground (arith, within, length-take (max_batch + 1) items) in
          let same : take (max_batch + 1) items ≡ batch = ground (arith, h, within) in
          (sym same ∙ take-all (max_batch + 1) items (omega (arith, short)), short)
    ]

pub check_batch_short {ℓ} :
    {A : Type ℓ} (items : List A) → length items ≤ max_batch → check_batch items ≡ ok items
unfolding check_batch
check_batch_short items h =
    rw (take-all (max_batch + 1) items (omega (arith, h))) (ground (arith, h))

as_message-ok :
    (v : Value) {m : Bytes} → as_message v ≡ ok m → (v ≡ bytes m) × (length m ≤ max_payload)
unfolding as_message as_bytes
as_message-ok (bytes b) {m} h = elim (Bool-cases (ltb max_payload (length b))) [
  | inl long ↦ absurd (ground (arith, h, long))
  | inr within ↦
      let same : b ≡ m = ground (arith, h, within) in
      (ap bytes same, rw (← same) (ground (arith, within)))
]
as_message-ok (Values.str t) h = cc
as_message-ok (Values.int n) h = cc
as_message-ok Values.other h = cc

abbrev AreMessages : List Value → List Bytes → Type 0
AreMessages items ms = (items ≡ map bytes ms) × All (λ (m : Bytes). length m ≤ max_payload) ms

messages-Returns : (items : List Value) → Returns (AreMessages items) (map_result as_message items)
messages-Returns [] = (refl, tt)
messages-Returns (v ∷ vs) = Returns-bind (AreMessages (v ∷ vs)) (as_message v) _ (λ m e.
    Returns-bind (AreMessages (v ∷ vs)) (map_result as_message vs) _ (λ ms es.
      let (is, small) = as_message-ok v e in
      let (are, all_small) =
        Returns-ok (AreMessages vs) (map_result as_message vs) (messages-Returns vs) es in
      (cc (is, are), (small, all_small))))

abbrev pub InBounds : List Value → List Bytes → Type 0
InBounds items ms =
    (items ≡ map bytes ms)
    × (length items ≤ max_batch)
    × All (λ (m : Bytes). length m ≤ max_payload) ms
    × (sum (map length ms) + 32 * length ms ≤ max_work)

check_messages-Returns : (items : List Value) → Returns (InBounds items) (check_messages items)
unfolding check_messages
check_messages-Returns items = Returns-bind (InBounds items) (check_batch items) _ (λ batch eb.
    Returns-bind (InBounds items) (map_result as_message batch) _ (λ ms em.
      Returns-bind (InBounds items)
        (raise_if (ltb max_work (sum (map length ms) + 32 * length ms)) value_error) _
        (λ u eu.
          let (same, few) = check_batch-ok items eb in
          let (are, small) =
            Returns-ok (AreMessages batch) (map_result as_message batch) (messages-Returns batch)
              em in
          let within = raise_if-ok _ value_error eu in
          (sym same ∙ are, few, small, ltb_false→le _ _ within))))

-- What `_messages` lets through is its argument: at most 4096 byte strings of at most 1 MiB, whose
-- total size and 32 bytes for each come to at most 64 MiB.
pub check_messages-bounds :
    (items : List Value) {ms : List Bytes} → check_messages items ≡ ok ms → InBounds items ms
check_messages-bounds items h =
    Returns-ok (InBounds items) (check_messages items) (check_messages-Returns items) h
