-- ===== src/Backends/Cpu.antt =====
-- `class Cpu`, `public_key`, `verify_p256` and `_raw_signature` of
-- python/batchcrypto/__init__.py, over OpenSSL.
use gpu_batch_crypto.Prelude.{
  ℕ, ◌-◌, Bool, true, false, ◌&&◌, Option, List, [], ◌++◌, map, min, Bytes, Result, ok, ◌>>=◌, ltb,
  ◌==◌, length, take, drop,
}
use gpu_batch_crypto.Python.Ints.{int_from_bytes, int_to_bytes}
use gpu_batch_crypto.Python.Values.{Value, bytes, Error}
use gpu_batch_crypto.Core.{Record, ByteRecord, check_records, check_digests, check_messages, order}

-- AESGCM under a key, ECDSA of a digest under a scalar, SHA-256, the encoded public point of a
-- scalar, and the check of a signature (r, s) of a digest against an encoded point.
pub record Openssl : Type 0 where
  pub encrypt : Bytes → Bytes → Bytes → Bytes → Bytes
  pub decrypt : Bytes → Bytes → Bytes → Bytes → Option Bytes
  pub ecdsa : ℕ → Bytes → ℕ × ℕ
  pub sha256 : Bytes → Bytes
  pub derive : ℕ → Bytes
  pub verify : Bytes → ℕ → ℕ → Bytes → Bool

-- `_raw_signature` of the signature (r, s)
unfoldable pub raw_signature : ℕ × ℕ → Bytes
raw_signature sig = int_to_bytes 32 (sig.0) ++ int_to_bytes 32 (min sig.1 (order - sig.1))

-- The bytes of a value that a check let through as bytes.
unfoldable pub key_bytes : Value → Bytes
key_bytes (bytes b) = b
key_bytes _ = []

module _ (o : Openssl) where
  unfoldable pub sealed : Value → ByteRecord → Bytes
  unfolding key_bytes
  sealed key r = o.encrypt (key_bytes key) r.nonce r.payload r.aad

  unfoldable pub unsealed : Value → ByteRecord → Option Bytes
  unfolding key_bytes
  unsealed key r = o.decrypt (key_bytes key) r.nonce r.payload r.aad

  unfoldable pub seal : Value → List Record → Result Error (List Bytes)
  seal key records = do rs ← check_records key records false; ok (map (sealed key) rs)

  -- A tag that does not verify gives None for its record.
  unfoldable pub open_records : Value → List Record → Result Error (List (Option Bytes))
  open_records key records = do rs ← check_records key records true; ok (map (unsealed key) rs)

  unfoldable pub sign : Value → List Value → Result Error (List Bytes)
  unfolding key_bytes
  sign key digests = do
    hs ← check_digests key digests
    ok (map (λ h. raw_signature (o.ecdsa (int_from_bytes (key_bytes key)) h)) hs)

  unfoldable pub sha256 : List Value → Result Error (List Bytes)
  sha256 messages = do ms ← check_messages messages; ok (map o.sha256 ms)

  unfoldable pub public_key : Value → Result Error Bytes
  unfolding key_bytes
  public_key key = do _ ← check_digests key []; ok (o.derive (int_from_bytes (key_bytes key)))

  unfoldable pub in_range : ℕ → Bool
  in_range n = ltb 0 n && ltb n order

  -- `verify_p256`; a point that does not decode and a signature that does not verify are both
  -- `false` of the parameter.
  unfoldable pub verify_p256 : Value → Value → Value → Bool
  unfolding in_range
  verify_p256 (bytes public) (bytes digest) (bytes signature) =
      length digest == 32
      && length signature == 64
      && in_range (int_from_bytes (take 32 signature))
      && in_range (int_from_bytes (drop 32 signature))
      && o.verify public (int_from_bytes (take 32 signature)) (int_from_bytes (drop 32 signature))
          digest
  verify_p256 _ _ _ = false
