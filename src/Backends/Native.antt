-- ===== src/Backends/Native.antt =====
-- What python/batchcrypto/__init__.py sees of the native library: status codes and the bytes that
-- it leaves in buffers whose sizes Python chose.
use gpu_batch_crypto.Prelude.{
  ℕ, zero, suc, ◌+◌, ◌-◌, ◌≡◌, refl, Bool, true, false, not, Option, List, [], ◌∷◌, Bytes, Result,
  ok, ◌>>=◌, raise_if, ◌==◌, length, ap,
}
use gpu_batch_crypto.Python.Values.{Error, runtime_error}
use gpu_batch_crypto.Core.{ByteRecord}
use gpu_batch_crypto.Verified.{Report}

-- `raw` of a buffer of n bytes, zero before the library wrote to it.
unfoldable pub raw : ℕ → Bytes → Bytes
raw zero b = []
raw (suc n) [] = 0 ∷ raw n []
raw (suc n) (x ∷ b) = x ∷ raw n b

pub length-raw : (n : ℕ) (b : Bytes) → length (raw n b) ≡ n
unfolding raw
length-raw zero b = refl
length-raw (suc n) [] = ap suc (length-raw n [])
length-raw (suc n) (x ∷ b) = ap suc (length-raw n b)

pub raw-length : (b : Bytes) → raw (length b) b ≡ b
unfolding raw
raw-length [] = refl
raw-length (x ∷ b) = ap (λ t. x ∷ t) (raw-length b)

-- `_Item`, with the capacity of the output.
pub record Item : Type 0 where
  pub input : Bytes
  pub aad : Bytes
  pub nonce : Bytes
  pub output_capacity : ℕ

-- The return code of a batch call, the status and the output of each item, and the report that the
-- calls of a runtime fill in.
pub record Outcome : Type 0 where
  pub rc : ℕ
  pub status : ℕ → ℕ
  pub output : ℕ → Bytes
  pub report : Report

-- `_check`
unfoldable pub check_status : ℕ → Result Error (Unit {0})
check_status status = raise_if (not (status == 0)) runtime_error

-- The statuses of n items, from the i-th.
unfoldable pub check_statuses : (ℕ → ℕ) → ℕ → ℕ → Result Error (Unit {0})
check_statuses status i zero = ok tt
check_statuses status i (suc n) = check_status (status i) >>= λ _. check_statuses status (i + 1) n

-- len(r.data) + (-16 if opening else 16)
unfoldable pub output_size : Bool → ByteRecord → ℕ
output_size true r = length r.payload - 16
output_size false r = length r.payload + 16

unfoldable pub to_item : Bool → ByteRecord → Item
unfolding output_size
to_item opening r = record {
  input = r.payload;
  aad = r.aad;
  nonce = r.nonce;
  output_capacity = output_size opening r;
}

-- `_Stats`
pub record Stats : Type 0 where
  pub calls : ℕ
  pub submitted : ℕ
  pub completed : ℕ
  pub item_errors : ℕ
  pub call_errors : ℕ
  pub reserved_device_bytes : ℕ

-- The library. `W` is the state of the library with its runtimes, as the calls change it. An epoch
-- that is `none` is a call without `_at_epoch`.
pub record Library (W : Type 0) : Type 0 where
  pub aes256gcm : Bool → ℕ → Bytes → List Item → W → Outcome × W
  pub p256_sign : ℕ → Bytes → Bytes → ℕ → W → Outcome × W
  pub sha256_batch : ℕ → List Bytes → W → Outcome × W
  pub p256_public_key : ℕ → Bytes → W → (ℕ × Bytes) × W
  pub has_epochs : Bool
  pub abi_version : ℕ
  pub create : ℕ → W → ℕ × W
  pub destroy : W → W
  pub set_p256_backend : ℕ → W → ℕ × W
  pub get_p256_backend : W → (ℕ × ℕ) × W
  pub get_stats : W → (ℕ × Stats) × W
  pub key_put : ℕ → ℕ → Bytes → ℕ → W → (ℕ × ℕ) × W
  pub key_remove : ℕ → ℕ → W → (ℕ × ℕ) × W
  pub aead : Bool → ℕ → Option ℕ → List Item → W → Outcome × W
  pub sign : ℕ → Option ℕ → Bytes → ℕ → W → Outcome × W
  pub hash : List Bytes → W → Outcome × W
  pub export_public_key : ℕ → W → (ℕ × (Bytes × ℕ)) × W
