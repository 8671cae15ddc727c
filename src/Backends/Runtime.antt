-- ===== src/Backends/Runtime.antt =====
-- `class Runtime` of python/batchcrypto/__init__.py: a handle of the native library with its key
-- slots. The methods run one after the other under the lock of the object.
use gpu_batch_crypto.Prelude.{
  ℕ, zero, suc, ◌^◌, Bool, true, false, not, Option, none, some, List, [], Text, Bytes, text,
  text_eq, Result, ok, err, ◌>>=◌, ◌>>◌, raise_if, ltb, ◌==◌, if◌then◌else◌, length,
}
use gpu_batch_crypto.Prelude.Int.{pos}
use gpu_batch_crypto.Python.Ints.{int_to_bytes}
use gpu_batch_crypto.Python.Values.{Value, Error, value_error, runtime_error, index_error}
use gpu_batch_crypto.Core.{Record, check_key, check_digests}
use gpu_batch_crypto.Verified.{Report}
use gpu_batch_crypto.Backends.Native.{raw, Outcome, Stats, check_status, Library}
use gpu_batch_crypto.Backends.Cuda.{aead, sha256_with, joined, after, read_pieces}

-- `open` is whether the handle is there.
pub record Runtime (W : Type 0) : Type 0 where
  pub open_handle : Bool
  pub last_report : Option Report
  pub world : W

-- `_slot` and `_epoch`
unfoldable pub slot_of : Value → Result Error ℕ
slot_of (Value.int (pos n)) = if ltb n 16 then ok n else err value_error
slot_of _ = err value_error

unfoldable pub epoch_of : Value → Result Error ℕ
epoch_of (Value.int (pos n)) = if ltb n (2 ^ 64) then ok n else err value_error
epoch_of _ = err value_error

-- ("reference", "comb_w8", "full_window_w8").index(backend)
unfoldable pub backend_index : Value → Result Error ℕ
backend_index (Value.str t) =
    if text_eq t (text "reference")
    then ok 0
    else if text_eq t (text "comb_w8")
    then ok 1
    else if text_eq t (text "full_window_w8")
    then ok 2
    else err value_error
backend_index _ = err value_error

-- ("reference", "comb_w8", "full_window_w8")[n]
backend_name : ℕ → Result Error Text
backend_name zero = ok (text "reference")
backend_name (suc zero) = ok (text "comb_w8")
backend_name (suc (suc zero)) = ok (text "full_window_w8")
backend_name (suc (suc (suc n))) = err index_error

-- 1 if kind == "aes" else 2
unfoldable pub kind_code : Value → Result Error ℕ
kind_code (Value.str t) =
    if text_eq t (text "aes")
    then ok 1
    else if text_eq t (text "p256")
    then ok 2
    else err value_error
kind_code _ = err value_error

abbrev pub Call : Type 0 → Type 0 → Type 0
Call W A = Runtime W → Result Error A × Runtime W

module _ {W : Type 0} where
  -- `_live`, and the body of the method.
  unfoldable pub live : {A : Type 0} → Call W A → Call W A
  live body rt = if rt.open_handle then body rt else (err runtime_error, rt)

  -- The checks of the arguments come first.
  abbrev pub checked : {A B : Type 0} → Result Error A → (A → Call W B) → Call W B
  checked (ok a) body rt = body a rt
  checked (err e) body rt = (err e, rt)

  -- A call of the library that gives a status and a value.
  unfoldable pub returned : {A B : Type 0} → (A → B) → (ℕ × A) × W → Call W B
  returned f (r, w) rt = (check_status r.0 >>= λ _. ok (f r.1), record rt { world = w })

  -- `_report`
  unfoldable pub reported : Outcome × W → Call W Outcome
  reported (out, w) rt = (ok out, record rt { last_report = some out.report; world = w })

unfoldable pub check_load : Value → Value → Value → Value → Result Error (ℕ × ℕ × Bytes × ℕ)
check_load slot key kind expected_epoch = do
  s ← slot_of slot
  e ← epoch_of expected_epoch
  k ← check_key key
  c ← kind_code kind
  ok (s, c, k, e)

unfoldable pub check_retire : Value → Value → Result Error (ℕ × ℕ)
check_retire slot expected_epoch = do s ← slot_of slot; e ← epoch_of expected_epoch; ok (s, e)

unfoldable pub check_sign : Value → List Value → Result Error (ℕ × List Bytes)
check_sign slot digests = do
  s ← slot_of slot
  ds ← check_digests (Value.bytes (int_to_bytes 32 1)) digests
  ok (s, ds)

check_device : Value → Result Error ℕ
check_device (Value.int (pos n)) = if ltb n (2 ^ 31) then ok n else err value_error
check_device _ = err value_error

-- A batch without items is one call of the library without items, whose status counts.
unfoldable pub unless_empty :
    {W A : Type 0}
    → Call W Outcome
    → Result Error (List A) × Runtime W
    → Result Error (List A) × Runtime W
unless_empty empty (ok [], rt) = after (λ out. check_status out.rc >>= λ _. ok []) (empty rt)
unless_empty empty r = r

module _ {W : Type 0} (lib : Library W) where
  -- The epoch of a keyed call, if it is bound to one.
  unfoldable pub keyed_epoch : Option Value → Result Error (Option ℕ)
  keyed_epoch none = ok none
  keyed_epoch (some v) = do e ← epoch_of v; raise_if (not lib.has_epochs) runtime_error; ok (some e)

  -- `_keyed_call`, with the report.
  unfoldable pub keyed_call : (Option ℕ → W → Outcome × W) → Option Value → Call W Outcome
  unfolding keyed_epoch
  keyed_call call expected_epoch =
      checked (keyed_epoch expected_epoch) (λ e rt. reported (call e rt.world) rt)

  -- `set_p256_backend`
  unfoldable pub set_p256_backend : Value → Call W (Unit {0})
  set_p256_backend backend = checked (backend_index backend) (λ n. live (λ rt.
      let (status, w) = lib.set_p256_backend n rt.world in
      (check_status status, record rt { world = w })))

  -- `p256_backend`
  unfoldable pub p256_backend : Call W Text
  unfolding backend_name
  p256_backend = live (λ rt.
      let (r, rt') = returned (λ n. n) (lib.get_p256_backend rt.world) rt in
      (r >>= backend_name, rt'))

  -- `close`
  unfoldable pub close : Runtime W → Runtime W
  close rt =
      if rt.open_handle then record rt { open_handle = false; world = lib.destroy rt.world } else rt

  -- `load_key`
  unfoldable pub load_key : Value → Value → Value → Value → Call W ℕ
  unfolding check_load
  load_key slot key kind expected_epoch =
      checked (check_load slot key kind expected_epoch)
        (λ (s, c, k, e). live (λ rt. returned (λ epoch. epoch) (lib.key_put s c k e rt.world) rt))

  -- `retire_key`
  unfoldable pub retire_key : Value → Value → Call W ℕ
  unfolding check_retire
  retire_key slot expected_epoch =
      checked (check_retire slot expected_epoch)
        (λ (s, e). live (λ rt. returned (λ epoch. epoch) (lib.key_remove s e rt.world) rt))

  -- `stats`
  unfoldable pub stats : Call W Stats
  stats = live (λ rt. returned (λ s. s) (lib.get_stats rt.world) rt)

  -- `_aead`: the key that is checked with the records is a dummy.
  unfoldable pub aead_at : Bool → Value → List Record → Option Value → Call W (List (Option Bytes))
  unfolding unless_empty
  aead_at opening slot records expected_epoch = checked (slot_of slot) (λ s. live (λ rt.
      unless_empty (keyed_call (λ e. lib.aead opening s e []) expected_epoch) (
        aead (Value.bytes (int_to_bytes 32 0)) records opening
          (λ items. keyed_call (λ e. lib.aead opening s e items) expected_epoch) rt)))

  unfoldable pub seal : Value → List Record → Option Value → Call W (List (Option Bytes))
  seal = aead_at false

  unfoldable pub open_records : Value → List Record → Option Value → Call W (List (Option Bytes))
  open_records = aead_at true

  -- `sign`
  unfoldable pub sign : Value → List Value → Option Value → Call W (List Bytes)
  unfolding check_sign
  sign slot digests expected_epoch = checked (check_sign slot digests) (λ (s, ds). live (λ rt.
      after (read_pieces 64 (length ds))
        (keyed_call (λ e. lib.sign s e (joined ds) (length ds)) expected_epoch rt)))

  -- `sha256`
  unfoldable pub sha256 : List Value → Call W (List Bytes)
  unfolding unless_empty
  sha256 messages = live (λ rt.
      unless_empty (λ rt. reported (lib.hash [] rt.world) rt)
        (sha256_with messages (λ ms rt. reported (lib.hash ms rt.world) rt) rt))

  -- `public_key`
  unfoldable pub public_key : Value → Call W (Bytes × ℕ)
  public_key slot = checked (slot_of slot) (λ s. live (λ rt.
      returned {A = Bytes × ℕ} (λ r. (raw 65 (r.0), r.1)) (lib.export_public_key s rt.world) rt))

  -- The constructors of `Cuda` and `Runtime`, of a library that is loaded.
  make_handle : Value → ℕ × W → Result Error (Runtime W) × W
  make_handle backend (status, w) =
      if status == 0
      then started
          (set_p256_backend backend (record { open_handle = true; last_report = none; world = w }))
      else (err runtime_error, w)
    where
      started : Result Error (Unit {0}) × Runtime W → Result Error (Runtime W) × W
      started (ok _, rt) = (ok rt, rt.world)
      started (err e, rt) = (err e, (close rt).world)

  unfoldable pub make : Value → Value → W → Result Error (Runtime W) × W
  unfolding check_device make_handle
  make device backend w = elim (check_device device) [
    | err e ↦ (err e, w)
    | ok d ↦
        if lib.abi_version == 1
        then make_handle backend (lib.create d w)
        else (err runtime_error, w)
  ]
