-- ===== src/Backends/Shapes.antt =====
-- What the batch calls of python/batchcrypto/__init__.py return, whatever the library does.
use gpu_batch_crypto.Prelude.{
  ℕ, zero, suc, ◌+◌, ◌-◌, ◌*◌, ◌≡◌, refl, inl, inr, Bool, true, false, Option, none, some, List, [],
  ◌∷◌, Bytes, Result, ok, err, Returns, Returns-bind, Returns-mono, Returns-ok, if◌then◌else◌,
  length, drop, All, arith, length-take, Result-cases,
}
use native.Mathlib.Nat.{suc-mul}
use gpu_batch_crypto.Python.Ints.{int_to_bytes}
use gpu_batch_crypto.Python.Values.{Value, Error, runtime_error}
use gpu_batch_crypto.Core.{Record, ByteRecord, check_records, check_digests}
use gpu_batch_crypto.Backends.Native.{
  raw, length-raw, Item, Outcome, check_status, check_statuses, output_size, Library,
}
use gpu_batch_crypto.Backends.Cuda.{
  Invoke, read_output, collect, read_records, pieces, read_pieces, after, aead, aead_checked,
}
use gpu_batch_crypto.Backends.Runtime.{
  Runtime, Call, live, checked, slot_of, unless_empty, aead_at, check_sign, sign,
}

-- One output for each record, in order, of the record's size; only opening leaves one out.
abbrev pub Shaped : Bool → List ByteRecord → List (Option Bytes) → Type 0
Shaped opening [] [] = Unit
Shaped opening [] (x ∷ xs) = ⊥
Shaped opening (r ∷ rs) [] = ⊥
Shaped opening (r ∷ rs) (none ∷ xs) = (opening ≡ true) × Shaped opening rs xs
Shaped opening (r ∷ rs) (some b ∷ xs) = (length b ≡ output_size opening r) × Shaped opening rs xs

-- The records as the checks let them through, with the outputs.
pub record IsBatch (opening : Bool) (records : List Record) (xs : List (Option Bytes))
    : Type 0 where
  pub given : List ByteRecord
  pub key : Value
  pub valid : check_records key records opening ≡ ok given
  pub shaped : Shaped opening given xs

read_output-Shaped :
    (opening : Bool) (status : ℕ) (b : Bytes) (r : ByteRecord) (rs : List ByteRecord)
    (xs : List (Option Bytes)) (x : Option Bytes)
    → length b ≡ output_size opening r
    → read_output opening status b ≡ ok x
    → Shaped opening rs xs
    → Shaped opening (r ∷ rs) (x ∷ xs)
unfolding read_output check_status
read_output-Shaped true status b r rs xs none n e h = (refl, h)
read_output-Shaped false status b r rs xs none n e h = absurd (ground (arith, e))
read_output-Shaped opening status b r rs xs (some c) n e h =
    let same : c ≡ b = ground (arith, e) in (rw same n, h)

collect-Shaped :
    (opening : Bool) (out : Outcome) (i : ℕ) (rs : List ByteRecord)
    → Returns (Shaped opening rs) (collect opening out i rs)
unfolding collect
collect-Shaped opening out i [] = tt
collect-Shaped opening out i (r ∷ rs) =
    Returns-bind (Shaped opening (r ∷ rs))
      (read_output opening (out.status i) (raw (output_size opening r) (out.output i))) _
      (λ x e. Returns-bind (Shaped opening (r ∷ rs)) (collect opening out (i + 1) rs) _ (λ xs f.
        read_output-Shaped opening (out.status i) _ r rs xs x
          (length-raw (output_size opening r) (out.output i)) e
          (Returns-ok (Shaped opening rs) _ (collect-Shaped opening out (i + 1) rs) f)))

read_records-Shaped :
    (opening : Bool) (rs : List ByteRecord) (out : Outcome)
    → Returns (Shaped opening rs) (read_records opening rs out)
unfolding read_records
read_records-Shaped opening rs out =
    Returns-bind (Shaped opening rs) (check_status out.rc) _
      (λ _ _. collect-Shaped opening out 0 rs)

-- What the value of a call satisfies, if it returns one.
abbrev pub Gives {ℓ} : {S A : Type 0} → (A → Type ℓ) → Result Error A × S → Type ℓ
Gives P r = Returns P r.0

after-Gives :
    {S A : Type 0} (P : A → Type 0) (read : Outcome → Result Error A) (r : Result Error Outcome × S)
    → ((out : Outcome) → Returns P (read out))
    → Gives P (after read r)
after-Gives P read (ok out, s) h = h out
after-Gives P read (err e, s) h = tt

aead-IsBatch :
    {S : Type 0} (key : Value) (records : List Record) (opening : Bool)
    (invoke : Invoke S (List Item)) (s : S)
    → Gives (IsBatch opening records) (aead key records opening invoke s)
unfolding aead aead_checked
aead-IsBatch {S} key records opening invoke s = go (check_records key records opening) refl
  where
    go :
        (r : Result Error (List ByteRecord))
        → check_records key records opening ≡ r
        → Gives (IsBatch opening records) (aead_checked opening invoke r s)
    go (err x) e = tt
    go (ok []) e = record { given = []; key = key; valid = e; shaped = tt }
    go (ok (r ∷ rs)) e =
        after-Gives (IsBatch opening records) (read_records opening (r ∷ rs)) _ (λ out.
          Returns-mono (Shaped opening (r ∷ rs)) _ (read_records opening (r ∷ rs) out)
            (λ xs h. record { given = r ∷ rs; key = key; valid = e; shaped = h })
            (read_records-Shaped opening (r ∷ rs) out))

module _ {W : Type 0} {A : Type 0} (P : A → Type 0) where
  live-Gives : (body : Call W A) (rt : Runtime W) → Gives P (body rt) → Gives P (live body rt)
  unfolding live
  live-Gives body rt h = go rt.open_handle
    where
      go : (b : Bool) → Gives P (if b then body rt else (err runtime_error, rt))
      go true = h
      go false = tt

  checked-Gives :
      {B : Type 0} (r : Result Error B) (body : B → Call W A) (rt : Runtime W)
      → ((b : B) → r ≡ ok b → Gives P (body b rt))
      → Gives P (checked r body rt)
  checked-Gives (ok b) body rt h = h b refl
  checked-Gives (err e) body rt h = tt

unless_empty-Gives :
    {W A : Type 0} (P : List A → Type 0) (empty : Call W Outcome)
    (r : Result Error (List A) × Runtime W)
    → Gives P r
    → Gives P (unless_empty empty r)
unfolding unless_empty
unless_empty-Gives P empty (ok [], rt) h =
    after-Gives P _ (empty rt) (λ out. Returns-bind P (check_status out.rc) _ (λ _ _. h))
unless_empty-Gives P empty (ok (x ∷ xs), rt) h = h
unless_empty-Gives P empty (err e, rt) h = tt

aead_at-Gives :
    {W : Type 0} (lib : Library W) (opening : Bool) (slot : Value) (records : List Record)
    (epoch : Option Value) (rt : Runtime W)
    → Gives (IsBatch opening records) (aead_at lib opening slot records epoch rt)
unfolding aead_at
aead_at-Gives lib opening slot records epoch rt =
    checked-Gives (IsBatch opening records) (slot_of slot) _ rt (λ s _.
      live-Gives (IsBatch opening records) _ rt (
        unless_empty-Gives (IsBatch opening records) _ _
          (aead-IsBatch (Value.bytes (int_to_bytes 32 0)) records opening _ rt)))

-- Whatever the native library does: what Runtime.seal and Runtime.open return is of records that
-- passed every check, one output for each in order, sixteen bytes longer than the data it seals or
-- shorter than the data it opens; only opening gives None.
pub aead_at-IsBatch :
    {W : Type 0} (lib : Library W) (opening : Bool) (slot : Value) (records : List Record)
    (epoch : Option Value) (rt : Runtime W) {xs : List (Option Bytes)}
    → (aead_at lib opening slot records epoch rt).0 ≡ ok xs
    → IsBatch opening records xs
aead_at-IsBatch lib opening slot records epoch rt =
    Returns-ok (IsBatch opening records) _ (aead_at-Gives lib opening slot records epoch rt)

length-drop : (n : ℕ) (b : Bytes) → length (drop n b) ≡ length b - n
length-drop zero b = omega arith
length-drop (suc n) [] = omega arith
length-drop (suc n) (x ∷ b) = omega (arith, length-drop n b)

pieces-sized :
    (n count : ℕ) (b : Bytes)
    → length b ≡ count * n
    → (length (pieces n count b) ≡ count) × All (λ p. length p ≡ n) (pieces n count b)
unfolding pieces
pieces-sized n zero b h = (refl, tt)
pieces-sized n (suc count) b h =
    let long : length b ≡ n + count * n = omega (arith, h, suc-mul count n) in
    let rest = pieces-sized n count (drop n b) (omega (arith, long, length-drop n b)) in
    (omega (arith, rest.0), (omega (arith, long, length-take n b), rest.1))

-- Signatures of digests that passed the checks.
pub record IsSigned (digests : List Value) (xs : List Bytes) : Type 0 where
  pub given : List Bytes
  pub valid : check_digests (Value.bytes (int_to_bytes 32 1)) digests ≡ ok given
  pub one_each : length xs ≡ length given
  pub sized : All (λ (b : Bytes). length b ≡ 64) xs

read_pieces-sized :
    (n count : ℕ) (out : Outcome)
    → Returns
        (λ (xs : List Bytes). (length xs ≡ count) × All (λ (p : Bytes). length p ≡ n) xs)
        (read_pieces n count out)
unfolding read_pieces
read_pieces-sized n count out = Returns-bind P (check_status out.rc) _ (λ _ _.
    Returns-bind P (check_statuses out.status 0 count) _ (λ _ _.
      pieces-sized n count (raw (count * n) (out.output 0))
        (length-raw (count * n) (out.output 0))))
  where
    P : List Bytes → Type 0
    P xs = (length xs ≡ count) × All (λ (p : Bytes). length p ≡ n) xs

-- Whatever the native library does: what Runtime.sign returns is a signature of 64 bytes for each
-- of the digests, which passed the checks.
pub sign-IsSigned :
    {W : Type 0} (lib : Library W) (slot : Value) (digests : List Value) (epoch : Option Value)
    (rt : Runtime W) {xs : List Bytes}
    → (sign lib slot digests epoch rt).0 ≡ ok xs
    → IsSigned digests xs
unfolding sign check_sign
sign-IsSigned lib slot digests epoch rt = Returns-ok P _ (
    checked-Gives P (check_sign slot digests) _ rt (λ (s, ds) e. live-Gives P _ rt (
      after-Gives P (read_pieces 64 (length ds)) _ (λ out.
        Returns-mono
          (λ (xs : List Bytes). (length xs ≡ length ds) × All (λ (p : Bytes). length p ≡ 64) xs) P
          (read_pieces 64 (length ds) out)
          (λ xs h. record {
            given = ds;
            valid = check_sign-digests s ds e;
            one_each = h.0;
            sized = h.1;
          })
          (read_pieces-sized 64 (length ds) out)))))
  where
    P : List Bytes → Type 0
    P = IsSigned digests

    check_sign-digests :
        (s : ℕ) (ds : List Bytes)
        → check_sign slot digests ≡ ok (s, ds)
        → check_digests (Value.bytes (int_to_bytes 32 1)) digests ≡ ok ds
    check_sign-digests s ds e = elim (Result-cases (slot_of slot)) [
      | inl (x, f) ↦ absurd (ground (arith, e, f))
      | inr (n, f) ↦ elim (Result-cases (check_digests (Value.bytes (int_to_bytes 32 1)) digests)) [
        | inl (x, g) ↦ absurd (ground (arith, e, f, g))
        | inr (hs, g) ↦ ground (arith, e, f, g)
      ]
    ]
