-- ===== src/Backends/Cuda.antt =====
-- `class Cuda` of python/batchcrypto/__init__.py. The batch calls take the call of the library as
-- an argument, as `invoke`, since `Runtime` passes its own.
use gpu_batch_crypto.Prelude.{
  ℕ, zero, suc, ◌+◌, ◌*◌, Bool, true, false, ◌&&◌, Option, none, some, List, [], ◌∷◌, ◌++◌, map,
  Bytes, Result, ok, err, ◌>>=◌, ◌>>◌, ◌==◌, if◌then◌else◌, length, take, drop,
}
use gpu_batch_crypto.Python.Values.{Value, Error}
use gpu_batch_crypto.Core.{Record, ByteRecord, check_records, check_digests, check_messages}
use gpu_batch_crypto.Backends.Native.{
  raw, Item, Outcome, check_status, check_statuses, output_size, to_item, Library,
}
use gpu_batch_crypto.Backends.Cpu.{key_bytes}

-- A call of the library on a state.
abbrev pub Invoke : Type 0 → Type 0 → Type 0
Invoke S A = A → S → Result Error Outcome × S

-- A record's output by its status: 3 is a tag that does not verify.
unfoldable pub read_output : Bool → ℕ → Bytes → Result Error (Option Bytes)
read_output opening status out =
    if opening && status == 3 then ok none else (check_status status >>= λ _. ok (some out))

-- The loop over the statuses, from the i-th.
unfoldable pub collect : Bool → Outcome → ℕ → List ByteRecord → Result Error (List (Option Bytes))
unfolding read_output
collect opening out i [] = ok []
collect opening out i (r ∷ rs) = do
  x ← read_output opening (out.status i) (raw (output_size opening r) (out.output i))
  rest ← collect opening out (i + 1) rs
  ok (x ∷ rest)

unfoldable pub read_records : Bool → List ByteRecord → Outcome → Result Error (List (Option Bytes))
read_records opening rs out = do check_status out.rc; collect opening out 0 rs

-- raw[i * n : (i + 1) * n] for count pieces
unfoldable pub pieces : ℕ → ℕ → Bytes → List Bytes
pieces n zero b = []
pieces n (suc count) b = take n b ∷ pieces n count (drop n b)

-- The output buffer of a batch call is count pieces of n bytes.
unfoldable pub read_pieces : ℕ → ℕ → Outcome → Result Error (List Bytes)
unfolding pieces
read_pieces n count out = do
  check_status out.rc
  check_statuses out.status 0 count
  ok (pieces n count (raw (count * n) (out.output 0)))

unfoldable pub joined : List Bytes → Bytes
joined [] = []
joined (b ∷ bs) = b ++ joined bs

-- What comes of the library's outcome.
abbrev pub after {ℓ} :
    {S A : Type ℓ} → (Outcome → Result Error A) → Result Error Outcome × S → Result Error A × S
after read (ok out, s) = (read out, s)
after read (err e, s) = (err e, s)

module _ {S : Type 0} where
  unfoldable pub aead_checked :
      Bool
      → Invoke S (List Item)
      → Result Error (List ByteRecord)
      → S
      → Result Error (List (Option Bytes)) × S
  aead_checked opening invoke (err e) s = (err e, s)
  aead_checked opening invoke (ok []) s = (ok [], s)
  aead_checked opening invoke (ok (r ∷ rs)) s =
      after (read_records opening (r ∷ rs)) (invoke (map (to_item opening) (r ∷ rs)) s)

  -- `_aead`
  unfoldable pub aead :
      Value → List Record → Bool → Invoke S (List Item) → S → Result Error (List (Option Bytes)) × S
  unfolding aead_checked
  aead key records opening invoke = aead_checked opening invoke (check_records key records opening)

  sha256_checked :
      Invoke S (List Bytes) → Result Error (List Bytes) → S → Result Error (List Bytes) × S
  sha256_checked invoke (err e) s = (err e, s)
  sha256_checked invoke (ok []) s = (ok [], s)
  sha256_checked invoke (ok (m ∷ ms)) s =
      after (read_pieces 32 (length (m ∷ ms))) (invoke (m ∷ ms) s)

  -- `sha256`
  unfoldable pub sha256_with :
      List Value → Invoke S (List Bytes) → S → Result Error (List Bytes) × S
  unfolding sha256_checked
  sha256_with messages invoke = sha256_checked invoke (check_messages messages)

unfoldable pub called : {S : Type 0} → Outcome × S → Result Error Outcome × S
called (out, s) = (ok out, s)

module _ {W : Type 0} (lib : Library W) (device : ℕ) where
  unfoldable pub seal : Value → List Record → W → Result Error (List (Option Bytes)) × W
  unfolding called
  seal key records =
      aead key records false
        (λ items w. called (lib.aes256gcm false device (key_bytes key) items w))

  unfoldable pub open_records : Value → List Record → W → Result Error (List (Option Bytes)) × W
  unfolding called
  open_records key records =
      aead key records true (λ items w. called (lib.aes256gcm true device (key_bytes key) items w))

  sign_checked : Value → Result Error (List Bytes) → W → Result Error (List Bytes) × W
  unfolding called
  sign_checked key (err e) w = (err e, w)
  sign_checked key (ok []) w = (ok [], w)
  sign_checked key (ok (d ∷ ds)) w =
      after (read_pieces 64 (length (d ∷ ds)))
        (called (lib.p256_sign device (key_bytes key) (joined (d ∷ ds)) (length (d ∷ ds)) w))

  unfoldable pub sign : Value → List Value → W → Result Error (List Bytes) × W
  unfolding sign_checked
  sign key digests = sign_checked key (check_digests key digests)

  unfoldable pub sha256 : List Value → W → Result Error (List Bytes) × W
  unfolding called
  sha256 messages = sha256_with messages (λ ms w. called (lib.sha256_batch device ms w))

  exported : (ℕ × Bytes) × W → Result Error Bytes × W
  exported (r, w) = (check_status r.0 >>= λ _. ok (raw 65 r.1), w)

  public_key_checked : Value → Result Error (List Bytes) → W → Result Error Bytes × W
  unfolding exported
  public_key_checked key (err e) w = (err e, w)
  public_key_checked key (ok _) w = exported (lib.p256_public_key device (key_bytes key) w)

  unfoldable pub public_key : Value → W → Result Error Bytes × W
  unfolding public_key_checked
  public_key key = public_key_checked key (check_digests key [])
