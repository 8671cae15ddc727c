-- ===== src/Receipts/Seal.antt =====
-- `SealedBatch` and `seal_records` of python/batchcrypto/receipts.py.
use gpu_batch_crypto.Prelude.{
  ℕ, Bool, true, false, Option, none, some, List, [], ◌∷◌, map, Text, Bytes, text, Result, ok, err,
  ◌>>=◌, ◌>>◌, raise_if, if◌then◌else◌, length, get_elem?,
}
use gpu_batch_crypto.Prelude.Int.{pos}
use gpu_batch_crypto.Python.Json.{Json, str, num, arr, obj, field, end, texts, dumps, sort_keys}
use gpu_batch_crypto.Python.Values.{Value, Error, value_error, type_error}
use gpu_batch_crypto.Core.{check_messages}
use gpu_batch_crypto.Jws.{b64, check_label, sign_es256}
use gpu_batch_crypto.Receipts.Tree.{Paths, tree}

abbrev pub receipt_profile : Text
receipt_profile = text "batchcrypto-record-receipt-v1"

-- `_encode`
unfoldable pub encode : Json → Bytes
encode value = dumps (sort_keys value)

pub record SealedBatch : Type 0 where
  pub manifest : Text
  pub paths : Paths

-- The signed fields.
unfoldable pub manifest_json : Text → ℕ → Bytes → Json
manifest_json context count root = obj (
    field (text "profile") (str receipt_profile) (
      field (text "context") (str context)
        (field (text "count") (num count) (field (text "root") (str (b64 root)) end))))

-- The first of the tokens; a call with one payload that returns gives one.
unfoldable pub first_token : List Text → Result Error Text
first_token [] = err type_error
first_token (t ∷ ts) = ok t

-- The tree of records that are not empty, which is always made.
unfoldable pub made_tree : Option (Bytes × Paths) → Result Error (Bytes × Paths)
made_tree none = err type_error
made_tree (some t) = ok t

unfoldable pub is_empty : List Bytes → Bool
is_empty [] = true
is_empty (r ∷ rs) = false

unfoldable pub seal_records :
    (Bytes → Bytes)
    → List Value
    → Value
    → Value
    → (List Bytes → Result Error (List Value))
    → Result Error SealedBatch
unfolding encode manifest_json first_token made_tree is_empty
seal_records sha256 items context key_id sign_digests = do
  label ← check_label context
  check_label key_id
  records ← check_messages items
  raise_if (is_empty records) value_error
  made ← made_tree (tree sha256 records)
  tokens ←
      sign_es256 sha256 (Value.bytes (encode (manifest_json label (length records) made.0)) ∷ [])
        key_id sign_digests
  manifest ← first_token tokens
  ok (record { manifest = manifest; paths = made.1 })

-- The index and the path, and the manifest where it is asked for.
unfoldable pub receipt_json : ℕ → List Bytes → Bool → Text → Json
receipt_json index path include_manifest manifest = obj (
    field (text "index") (num index) (
      field (text "path") (arr (texts (map b64 path)))
        (if include_manifest then field (text "manifest") (str manifest) end else end)))

unfoldable pub receipt_at : ℕ → Bool → Text → Option (List Bytes) → Result Error Bytes
unfolding encode receipt_json
receipt_at index include_manifest manifest none = err value_error
receipt_at index include_manifest manifest (some path) =
    ok (encode (receipt_json index path include_manifest manifest))

-- `SealedBatch.receipt`
unfoldable pub receipt : SealedBatch → Value → Bool → Result Error Bytes
unfolding receipt_at
receipt batch (Value.int (pos index)) include_manifest =
    receipt_at index include_manifest batch.manifest (get_elem? batch.paths index)
receipt batch _ include_manifest = err value_error
