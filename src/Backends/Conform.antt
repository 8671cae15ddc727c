-- ===== src/Backends/Conform.antt =====
-- `Cuda` against `Cpu`, the reference (python/batchcrypto/__init__.py).
use gpu_batch_crypto.Prelude.{
  ℕ, ◌+◌, ◌-◌, ◌≡◌, refl, ap, Bool, true, false, Option, none, some, List, [], ◌∷◌, map, Bytes,
  Result, ok, err, ◌>>=◌, Returns, length, arith,
}
use gpu_batch_crypto.Python.Values.{Value, Error}
use gpu_batch_crypto.Core.{Record, ByteRecord, check_records}
use gpu_batch_crypto.Backends.Native.{
  raw, raw-length, Item, Outcome, check_status, output_size, to_item, Library,
}
use gpu_batch_crypto.Backends.Limits.{Valid, check_records-Valid}
use gpu_batch_crypto.Backends.Cpu
use gpu_batch_crypto.Backends.Cpu.{Openssl, key_bytes, sealed, unsealed}
use gpu_batch_crypto.Backends.Cuda
use gpu_batch_crypto.Backends.Cuda.{aead, aead_checked, read_output, collect, read_records, called}

-- Status 3 is a tag that does not verify.
abbrev pub Opened : Option Bytes → ℕ → Bytes → Type 0
Opened none status out = status ≡ 3
Opened (some d) status out = (status ≡ 0) × (out ≡ d)

-- What a kernel leaves of an item that it seals, or opens.
abbrev pub Answer : Openssl → Bool → Bytes → Item → ℕ → Bytes → Type 0
Answer o false key it status out = (status ≡ 0) × (out ≡ o.encrypt key it.nonce it.input it.aad)
Answer o true key it status out = Opened (o.decrypt key it.nonce it.input it.aad) status out

abbrev pub Answers : Openssl → Bool → Bytes → Outcome → ℕ → List Item → Type 0
Answers o opening key out i [] = Unit
Answers o opening key out i (it ∷ items) =
    Answer o opening key it (out.status i) (out.output i) × Answers o opening key out (i + 1) items

-- On the arguments that the library accepts the kernels compute what OpenSSL does, and a tag has
-- sixteen bytes.
pub record Computes (o : Openssl) {W : Type 0} (lib : Library W) (device : ℕ) : Type 0 where
  pub succeeds :
      (opening : Bool) (key : Bytes) (items : List Item) (w : W)
      → Valid opening key items
      → (lib.aes256gcm opening device key items w).0.rc ≡ 0
  pub answers :
      (opening : Bool) (key : Bytes) (items : List Item) (w : W)
      → Valid opening key items
      → Answers o opening key (lib.aes256gcm opening device key items w).0 0 items
  pub grows : (k n d a : Bytes) → length (o.encrypt k n d a) ≡ length d + 16
  pub shrinks : (k n c a d : Bytes) → o.decrypt k n c a ≡ some d → length d ≡ length c - 16

-- The reference's outputs, in the form of both operations.
reference : Openssl → Bool → Bytes → ByteRecord → Option Bytes
reference o false key r = some (o.encrypt key r.nonce r.payload r.aad)
reference o true key r = o.decrypt key r.nonce r.payload r.aad

module _ (o : Openssl) (grows : (k n d a : Bytes) → length (o.encrypt k n d a) ≡ length d + 16)
    (shrinks : (k n c a d : Bytes) → o.decrypt k n c a ≡ some d → length d ≡ length c - 16)
    (key : Bytes) where
  raw-sized : (n : ℕ) (b : Bytes) → length b ≡ n → raw n b ≡ b
  raw-sized n b h = rw (← h) (raw-length b)

  read_output-reference :
      (opening : Bool) (r : ByteRecord) (status : ℕ) (out : Bytes)
      → Answer o opening key (to_item opening r) status out
      → read_output opening status (raw (output_size opening r) out)
        ≡ ok (reference o opening key r)
  unfolding read_output check_status output_size to_item reference
  read_output-reference false r status out (fine, same) =
      rw
        (
          fine,
          same,
          raw-sized _ (o.encrypt key r.nonce r.payload r.aad) (grows key r.nonce r.payload r.aad),
        )
        refl
  read_output-reference true r status out h = go (o.decrypt key r.nonce r.payload r.aad) refl h
    where
      go :
          (d : Option Bytes)
          → o.decrypt key r.nonce r.payload r.aad ≡ d
          → Opened d status out
          → read_output true status (raw (length r.payload - 16) out) ≡ ok d
      go none e t = rw t refl
      go (some d) e (fine, same) =
          rw (fine, same, raw-sized _ d (shrinks key r.nonce r.payload r.aad d e)) refl

  collect-reference :
      (opening : Bool) (out : Outcome) (i : ℕ) (rs : List ByteRecord)
      → Answers o opening key out i (map (to_item opening) rs)
      → collect opening out i rs ≡ ok (map (reference o opening key) rs)
  unfolding collect
  collect-reference opening out i [] h = refl
  collect-reference opening out i (r ∷ rs) h =
      rw
        (
          read_output-reference opening r (out.status i) (out.output i) h.0,
          collect-reference opening out (i + 1) rs h.1,
        )
        refl

  read_records-reference :
      (opening : Bool) (rs : List ByteRecord) (out : Outcome)
      → out.rc ≡ 0
      → Answers o opening key out 0 (map (to_item opening) rs)
      → read_records opening rs out ≡ ok (map (reference o opening key) rs)
  unfolding read_records check_status
  read_records-reference opening rs out rc h =
      let fine : check_status out.rc ≡ ok tt = ground (arith, rc) in
      rw fine (collect-reference opening out 0 rs h)

-- `f` of the value of a call.
abbrev pub mapped : {A B : Type 0} → (A → B) → Result Error A → Result Error B
mapped f (ok a) = ok (f a)
mapped f (err e) = err e

module _ (o : Openssl) {W : Type 0} (lib : Library W) (device : ℕ) (c : Computes o lib device) where
  -- The same outputs, or the same exception of the checks.
  aead-reference :
      (opening : Bool) (key : Bytes) (r : Result Error (List ByteRecord)) (w : W)
      → Returns (λ rs. Valid opening key (map (to_item opening) rs)) r
      → (aead_checked opening (λ items w. called (lib.aes256gcm opening device key items w)) r w).0
        ≡ mapped (map (reference o opening key)) r
  unfolding aead_checked called
  aead-reference opening key (err e) w valid = refl
  aead-reference opening key (ok []) w valid = refl
  aead-reference opening key (ok (r ∷ rs)) w valid =
      let items = map (to_item opening) (r ∷ rs) in
      read_records-reference o c.grows c.shrinks key opening (r ∷ rs)
        ((lib.aes256gcm opening device key items w).0) (c.succeeds opening key items w valid)
        (c.answers opening key items w valid)

  mapped-seal :
      (key : Value) (r : Result Error (List ByteRecord))
      → mapped (map (reference o false (key_bytes key))) r
        ≡ mapped (map some) (r >>= λ rs. ok (map (sealed o key) rs))
  unfolding reference sealed
  mapped-seal key (err e) = refl
  mapped-seal key (ok rs) = ap ok (go rs)
    where
      go :
          (rs : List ByteRecord)
          → map (reference o false (key_bytes key)) rs ≡ map some (map (sealed o key) rs)
      go [] = refl
      go (r ∷ rs) = ap (λ t. some (o.encrypt (key_bytes key) r.nonce r.payload r.aad) ∷ t) (go rs)

  mapped-open :
      (key : Value) (r : Result Error (List ByteRecord))
      → mapped (map (reference o true (key_bytes key))) r
        ≡ (r >>= λ rs. ok (map (unsealed o key) rs))
  unfolding reference unsealed
  mapped-open key (err e) = refl
  mapped-open key (ok rs) = refl

-- If the kernels compute what OpenSSL does on the arguments that the library accepts, Cuda.seal and
-- Cuda.open return what Cpu.seal and Cpu.open do on every key and every list of records: the same
-- outputs, None for the same records, the same exceptions.
pub cuda_conforms :
    (o : Openssl) {W : Type 0} (lib : Library W) (device : ℕ)
    → Computes o lib device
    → (key : Value) (records : List Record) (w : W)
    → ((Cuda.seal lib device key records w).0 ≡ mapped (map some) (Cpu.seal o key records))
      × ((Cuda.open_records lib device key records w).0 ≡ Cpu.open_records o key records)
unfolding Cuda.seal Cuda.open_records Cpu.seal Cpu.open_records aead
cuda_conforms o lib device c key records w = (
  rw (← mapped-seal o lib device c key (check_records key records false)) (
      aead-reference o lib device c false (key_bytes key) (check_records key records false) w
        (check_records-Valid key records false)),
  rw (← mapped-open o lib device c key (check_records key records true)) (
      aead-reference o lib device c true (key_bytes key) (check_records key records true) w
        (check_records-Valid key records true)),
)
