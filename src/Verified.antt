-- ===== src/Verified.antt =====
-- `VerifiedSigner` (python/batchcrypto/verified.py), over the runtime that it owns: a parameter,
-- with a state of its own, of which nothing is assumed. The curve is a parameter too: the encoded
-- public point of a scalar, and the check of a signature against it.
pub mod Quarantine
pub mod Trust
pub mod Tests
use gpu_batch_crypto.Prelude.{
  ℕ, ◌+◌, ◌^◌, Bool, true, false, ◌&&◌, ◌||◌, not, Option, none, some, List, [], ◌∷◌, Bytes,
  text_eq, Result, ok, err, ◌>>=◌, ◌>>◌, raise_if, ltb, ◌==◌, if◌then◌else◌, length,
}
use gpu_batch_crypto.Prelude.Int.{pos}
use gpu_batch_crypto.Python.Ints.{int_from_bytes, int_to_bytes}
use gpu_batch_crypto.Python.Values
use gpu_batch_crypto.Python.Values.{Value}
use gpu_batch_crypto.Core.{as_bytes, check_digests}
use gpu_batch_crypto.Jws.{is_low_s, scalar_r, scalar_s}

-- An exception of the checks or of the runtime, a missing key (KeyError), VerificationError.
pub data Error : Type 0 where
  raised : Values.Error → Error
  missing_key verification : Error

pub record Report : Type 0 where
  pub submitted : ℕ
  pub completed : ℕ
  pub errors : ℕ
  pub key_epoch : ℕ

-- `Runtime`, as far as the signer calls it: each call gives a value or raises.
pub record Backend (W : Type 0) : Type 0 where
  pub load_key : ℕ → Bytes → ℕ → W → Result Values.Error ℕ × W
  pub public_key : ℕ → W → Result Values.Error (Bytes × ℕ) × W
  pub retire_key : ℕ → ℕ → W → Result Values.Error ℕ × W
  pub sign : ℕ → List Bytes → ℕ → W → Result Values.Error (List Value) × W
  pub last_report : W → Option Report
  pub close : W → W

pub record Curve : Type 0 where
  pub derive : ℕ → Bytes
  pub verify : Bytes → ℕ → ℕ → Bytes → Bool

-- A slot's epoch and public key; the point and its encoding are one.
pub record Entry : Type 0 where
  pub slot : ℕ
  pub epoch : ℕ
  pub encoded : Bytes

pub record Signer (W : Type 0) : Type 0 where
  pub closed : Bool
  pub keys : List Entry
  pub world : W

-- `Runtime._slot` and `Runtime._epoch`; a `bool` is passed as the integer that it equals.
unfoldable pub check_slot : Value → Result Error ℕ
check_slot (Value.int (pos n)) = if ltb n 16 then ok n else err (raised Values.value_error)
check_slot _ = err (raised Values.value_error)

unfoldable pub check_epoch : Value → Result Error ℕ
check_epoch (Value.int (pos n)) = if ltb n (2 ^ 64) then ok n else err (raised Values.value_error)
check_epoch _ = err (raised Values.value_error)

-- An exception of the package, as one of the signer.
unfoldable pub lifted {ℓ} : {A : Type ℓ} → Result Values.Error A → Result Error A
lifted (ok a) = ok a
lifted (err e) = err (raised e)

-- `self._keys.get(slot)`
unfoldable pub find_entry : ℕ → List Entry → Option Entry
find_entry slot [] = none
find_entry slot (e ∷ es) = if e.slot == slot then some e else find_entry slot es

-- `self._keys.pop(slot, None)`
unfoldable pub remove_entry : ℕ → List Entry → List Entry
remove_entry slot [] = []
remove_entry slot (e ∷ es) =
    let rest = remove_entry slot es in if e.slot == slot then rest else e ∷ rest

-- `self._runtime.last_report != expected_report`, for a batch of n.
unfoldable pub is_complete : ℕ → ℕ → Option Report → Bool
is_complete n epoch none = false
is_complete n epoch (some r) =
    r.submitted == n && r.completed == n && r.errors == 0 && r.key_epoch == epoch

module _ (curve : Curve) where
  -- One output: 64 bytes, canonical, and valid for the digest under the pinned key.
  unfoldable pub is_valid : Bytes → Bytes → Value → Bool
  is_valid encoded digest (Values.bytes sig) =
      length sig == 64 && is_low_s sig && curve.verify encoded (scalar_r sig) (scalar_s sig) digest
  is_valid encoded digest _ = false

  -- for digest, signature in zip(digests, signatures), of one length
  unfoldable pub all_valid : Bytes → List Bytes → List Value → Bool
  unfolding is_valid
  all_valid encoded [] [] = true
  all_valid encoded (d ∷ ds) (v ∷ vs) = is_valid encoded d v && all_valid encoded ds vs
  all_valid encoded [] (v ∷ vs) = false
  all_valid encoded (d ∷ ds) [] = false

  module _ {W : Type 0} (backend : Backend W) where
    unfoldable pub close : Signer W → Signer W
    close s = record { closed = true; keys = []; world = backend.close s.world }

    -- `_fault`, and every exception in the `try` blocks. Where `_fault` raises inside a `try` the
    -- signer is closed again, which finds its runtime closed and does nothing.
    unfoldable pub fault : {A : Type 0} → Signer W → Result Error A × Signer W
    unfolding close
    fault s = (err verification, close s)

    -- The exported key is compared with the derived one before the slot is pinned.
    unfoldable pub pin_key :
        ℕ → Bytes → ℕ → Result Values.Error (Bytes × ℕ) → Signer W → Result Error ℕ × Signer W
    unfolding fault
    pin_key slot encoded epoch (err e) s = fault s
    pin_key slot encoded epoch (ok (actual, used)) s =
        if text_eq actual encoded && used == epoch
        then (
          ok epoch,
          record s {
            keys =
                record { slot = slot; epoch = epoch; encoded = encoded } ∷ remove_entry slot s.keys;
          },
        )
        else fault s

    unfoldable pub export_key :
        ℕ → Bytes → Result Values.Error ℕ → Signer W → Result Error ℕ × Signer W
    unfolding pin_key remove_entry
    export_key slot key (err e) s = (err (raised e), s)
    export_key slot key (ok epoch) s =
        let (exported, world) = backend.public_key slot s.world in
        pin_key slot (curve.derive (int_from_bytes key)) epoch exported (record s { world = world })

    unfoldable pub load_live : ℕ → Bytes → ℕ → Signer W → Result Error ℕ × Signer W
    unfolding export_key
    load_live slot key expected s =
        if s.closed
        then (err (raised Values.runtime_error), s)
        else (let (loaded, world) = backend.load_key slot key expected s.world in
            export_key slot key loaded (record s { world = world }))

    -- The arguments of `load_key`: `_digests(key, [])` checks the key.
    unfoldable pub check_load : Value → Value → Value → Result Error (ℕ × ℕ × Bytes)
    unfolding check_slot check_epoch lifted
    check_load slot key epoch = do
      n ← check_slot slot
      e ← check_epoch epoch
      lifted (check_digests key [])
      k ← lifted (as_bytes key)
      ok (n, e, k)

    unfoldable pub load_key : Value → Value → Value → Signer W → Result Error ℕ × Signer W
    unfolding check_load load_live
    load_key slot key epoch s = elim (check_load slot key epoch) [
      | err e ↦ (err e, s)
      | ok (n, e, k) ↦ load_live n k e s
    ]

    -- `self._keys[slot]`
    unfoldable pub entry_key : Option Entry → Result Error (Bytes × ℕ)
    entry_key none = err missing_key
    entry_key (some e) = ok (e.encoded, e.epoch)

    unfoldable pub public_key : Value → Signer W → Result Error (Bytes × ℕ) × Signer W
    unfolding check_slot entry_key find_entry
    public_key slot s = elim (check_slot slot) [
      | err e ↦ (err e, s)
      | ok n ↦ (
        (if s.closed then err (raised Values.runtime_error) else entry_key (find_entry n s.keys)),
        s,
      )
    ]

    unfoldable pub forget : ℕ → Result Values.Error ℕ × W → Signer W → Result Error ℕ × Signer W
    unfolding remove_entry
    forget slot (err e, world) s = (err (raised e), record s { world = world })
    forget slot (ok epoch, world) s =
        (ok epoch, record s { world = world; keys = remove_entry slot s.keys })

    unfoldable pub retire_live : ℕ → ℕ → Signer W → Result Error ℕ × Signer W
    unfolding forget
    retire_live slot expected s =
        if s.closed
        then (err (raised Values.runtime_error), s)
        else forget slot (backend.retire_key slot expected s.world) s

    unfoldable pub check_retire : Value → Value → Result Error (ℕ × ℕ)
    unfolding check_slot check_epoch
    check_retire slot epoch = do n ← check_slot slot; e ← check_epoch epoch; ok (n, e)

    unfoldable pub retire_key : Value → Value → Signer W → Result Error ℕ × Signer W
    unfolding check_retire retire_live
    retire_key slot epoch s = elim (check_retire slot epoch) [
      | err e ↦ (err e, s)
      | ok (n, e) ↦ retire_live n e s
    ]

    -- What the runtime returned, after every check of it.
    unfoldable pub release_batch :
        Bytes
        → List Bytes
        → ℕ
        → Result Values.Error (List Value)
        → Signer W
        → Result Error (List Value) × Signer W
    unfolding fault all_valid is_complete
    release_batch encoded digests epoch (err e) s = fault s
    release_batch encoded digests epoch (ok signatures) s =
        if length signatures == length digests
          && is_complete (length digests) epoch (backend.last_report s.world)
          && all_valid encoded digests signatures
        then (ok signatures, s)
        else fault s

    unfoldable pub sign_entry :
        Option Entry → ℕ → List Bytes → ℕ → Signer W → Result Error (List Value) × Signer W
    unfolding release_batch
    sign_entry none slot digests epoch s = (err (raised Values.runtime_error), s)
    sign_entry (some e) slot digests epoch s =
        if not (e.epoch == epoch)
        then (err (raised Values.runtime_error), s)
        else (let (returned, world) = backend.sign slot digests epoch s.world in
            release_batch e.encoded digests epoch returned (record s { world = world }))

    unfoldable pub sign_live : ℕ → List Bytes → ℕ → Signer W → Result Error (List Value) × Signer W
    unfolding sign_entry find_entry
    sign_live slot digests epoch s =
        if s.closed
        then (err (raised Values.runtime_error), s)
        else sign_entry (find_entry slot s.keys) slot digests epoch s

    -- The arguments of `sign`: the digests are checked under the scalar 1.
    unfoldable pub check_sign : Value → List Value → Value → Result Error (ℕ × List Bytes × ℕ)
    unfolding check_slot check_epoch lifted
    check_sign slot digests epoch = do
      n ← check_slot slot
      e ← check_epoch epoch
      ds ← lifted (check_digests (Values.bytes (int_to_bytes 32 1)) digests)
      ok (n, ds, e)

    unfoldable pub sign :
        Value → List Value → Value → Signer W → Result Error (List Value) × Signer W
    unfolding check_sign sign_live
    sign slot digests epoch s = elim (check_sign slot digests epoch) [
      | err e ↦ (err e, s)
      | ok (n, ds, e) ↦ sign_live n ds e s
    ]
