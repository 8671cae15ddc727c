-- ===== src/Manifests.antt =====
-- Record manifests (python/batchcrypto/manifests.py): `seal_manifest`, and the checks of a
-- `VerifiedManifest`, which holds the hashes of the records.
pub mod Export
pub mod Signing
pub mod Tests
use gpu_batch_crypto.Prelude.{
  ℕ, zero, suc, ◌*◌, Bool, true, false, ◌&&◌, not, Option, none, some, List, [], ◌∷◌, map, Text,
  Bytes, text, text_eq, Result, ok, err, ◌>>=◌, ◌>>◌, raise_if, ltb, ◌==◌, if◌then◌else◌, length,
  get_elem?,
}
use gpu_batch_crypto.Prelude.Int.{pos}
use gpu_batch_crypto.Python.Json.{Json, str, num, arr, obj, field, end, texts}
use gpu_batch_crypto.Python.Values.{Value, bytes, int, Error, value_error}
use gpu_batch_crypto.Core.{max_payload, check_messages}
use gpu_batch_crypto.Jws.{b64, check_label, sign_es256}
use gpu_batch_crypto.Receipts.Seal.{encode, first_token, is_empty}

abbrev pub manifest_profile : Text
manifest_profile = text "batchcrypto-record-manifest-v1"

abbrev pub max_manifest : ℕ
max_manifest = 256 * 1024

-- The signed fields: the hash of every record, in order.
unfoldable pub hashes_json : Text → List Bytes → Json
hashes_json context hashes = obj (
    field (text "profile") (str manifest_profile) (
      field (text "context") (str context) (
        field (text "count") (num (length hashes))
          (field (text "hashes") (arr (texts (map b64 hashes))) end))))

unfoldable pub seal_manifest :
    (Bytes → Bytes)
    → List Value
    → Value
    → Value
    → (List Bytes → Result Error (List Value))
    → Result Error Text
unfolding encode hashes_json first_token is_empty
seal_manifest sha256 items context key_id sign_digests = do
  label ← check_label context
  check_label key_id
  records ← check_messages items
  raise_if (is_empty records) value_error
  tokens ←
      sign_es256 sha256 (bytes (encode (hashes_json label (map sha256 records))) ∷ []) key_id
        sign_digests
  manifest ← first_token tokens
  raise_if (ltb max_manifest (length manifest)) value_error
  ok manifest

-- `VerifiedManifest`, with its `_digests`.
pub record VerifiedManifest : Type 0 where
  pub context : Text
  pub key_id : Text
  pub digests : List Bytes

abbrev pub count : VerifiedManifest → ℕ
count m = length m.digests

-- The hash at an index, `none` where the index is not below the count.
unfoldable pub matches : Bytes → Option Bytes → Bool
matches digest none = false
matches digest (some d) = text_eq digest d

module _ (sha256 : Bytes → Bytes) (m : VerifiedManifest) where
  unfoldable pub verify_record : Value → Value → Bool
  unfolding matches
  verify_record (bytes r) (int (pos index)) =
      not (ltb max_payload (length r)) && matches (sha256 r) (get_elem? m.digests index)
  verify_record _ _ = false

  -- all(... for index, record in enumerate(records)), from an index on
  unfoldable pub verify_from : ℕ → List Bytes → Bool
  unfolding verify_record
  verify_from index [] = true
  verify_from index (r ∷ rs) =
      verify_record (bytes r) (int (pos index)) && verify_from (suc index) rs

  unfoldable pub verify_checked : Result Error (List Bytes) → Bool
  unfolding verify_from
  verify_checked (err e) = false
  verify_checked (ok records) = length records == count m && verify_from 0 records

  unfoldable pub verify_all : List Value → Bool
  unfolding verify_checked
  verify_all items = verify_checked (check_messages items)
