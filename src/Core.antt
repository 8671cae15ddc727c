-- ===== src/Core.antt =====
-- The bounds and the input checks of the Python package (python/batchcrypto/__init__.py). An
-- iterable argument is the list of what it yields; a value is told apart by its Python type.
pub mod Bounds
use gpu_batch_crypto.Prelude.{
  ℕ, suc, ◌+◌, ◌-◌, ◌*◌, ◌^◌, Bool, true, false, ◌&&◌, ◌||◌, not, List, [], ◌∷◌, map, Bytes,
  text_eq, Result, ok, err, ◌>>=◌, ◌>>◌, raise_if, ltb, leb, ◌==◌, if◌then◌else◌, length, take, any,
  all, sum, map_result,
}
use gpu_batch_crypto.Python.Ints.{int_from_bytes}
use gpu_batch_crypto.Python.Values.{Value, bytes, Error, value_error}

-- The order of the P-256 group.
abbrev pub order : ℕ
order = 0xFFFFFFFF00000000FFFFFFFFFFFFFFFFBCE6FAADA7179E84F3B9CAC2FC632551

abbrev pub max_batch : ℕ
max_batch = 4096

abbrev pub max_payload : ℕ
max_payload = 1048576

abbrev pub max_aad : ℕ
max_aad = 65536

-- 64 MiB
abbrev pub max_work : ℕ
max_work = 64 * 1024 * 1024

-- A `Record` is a nonce, the data and the associated data, each of any type until it is checked.
-- An item that is not a `Record` fails the test of one whose fields are not bytes, with the same
-- exception, and stands as such a record.
pub record Record : Type 0 where
  pub nonce : Value
  pub payload : Value
  pub aad : Value

-- A record whose fields are bytes.
pub record ByteRecord : Type 0 where
  pub nonce : Bytes
  pub payload : Bytes
  pub aad : Bytes

-- `isinstance(value, bytes)`, and the bytes.
unfoldable pub as_bytes : Value → Result Error Bytes
as_bytes (bytes b) = ok b
as_bytes _ = err value_error

-- `_key`
unfoldable pub check_key : Value → Result Error Bytes
unfolding as_bytes
check_key key = do k ← as_bytes key; raise_if (not (length k == 32)) value_error; ok k

-- `_batch`: consumes at most one item more than the bound.
unfoldable pub check_batch {ℓ} : {A : Type ℓ} → List A → Result Error (List A)
check_batch items =
    let result = take (max_batch + 1) items in
    if ltb max_batch (length result) then err value_error else ok result

unfoldable pub as_byte_record : Record → Result Error ByteRecord
unfolding as_bytes
as_byte_record r = do
  n ← as_bytes r.nonce
  d ← as_bytes r.payload
  a ← as_bytes r.aad
  ok (record { nonce = n; payload = d; aad = a })

-- 16 bytes of tag come with a sealed record.
abbrev pub tag_size : Bool → ℕ
tag_size opening = if opening then 16 else 0

-- The work that a record of `n` payload bytes adds.
abbrev pub record_work : Bool → ByteRecord → ℕ
record_work opening r = 2 * (length r.payload - tag_size opening) + 16 + length r.aad

-- The checks of one record against the nonces seen so far.
unfoldable pub check_record : Bool → List Bytes → Record → Result Error ByteRecord
unfolding as_byte_record
check_record opening nonces record_value = do
  r ← as_byte_record record_value
  raise_if (not (length r.nonce == 12) || ltb max_aad (length r.aad)) value_error
  raise_if
      (ltb (length r.payload) (tag_size opening)
        || ltb max_payload (length r.payload - tag_size opening))
      value_error
  raise_if (not opening && any (text_eq r.nonce) nonces) value_error
  ok r

-- The loop of `_records`, with the set of nonces and the work so far.
unfoldable pub check_each : Bool → List Bytes → ℕ → List Record → Result Error (List ByteRecord × ℕ)
unfolding check_record
check_each opening nonces work [] = ok ([], work)
check_each opening nonces work (x ∷ xs) = check_record opening nonces x >>= λ r.
    check_each opening (r.nonce ∷ nonces) (work + record_work opening r) xs >>= λ rest.
    ok (r ∷ rest.0, rest.1)

-- `_records`
unfoldable pub check_records : Value → List Record → Bool → Result Error (List ByteRecord)
unfolding check_key check_batch check_each
check_records key items opening = do
  check_key key
  records ← check_batch items
  checked ← check_each opening [] 0 records
  raise_if (ltb max_work checked.1) value_error
  ok checked.0

abbrev pub is_scalar : ℕ → Bool
is_scalar d = leb 1 d && ltb d order

-- 32 bytes
unfoldable pub as_digest : Value → Result Error Bytes
unfolding as_bytes
as_digest value = do h ← as_bytes value; raise_if (not (length h == 32)) value_error; ok h

-- `_digests`
unfoldable pub check_digests : Value → List Value → Result Error (List Bytes)
unfolding check_key check_batch as_digest
check_digests key items = do
  k ← check_key key
  raise_if (not (is_scalar (int_from_bytes k))) value_error
  digests ← check_batch items
  map_result as_digest digests

-- at most 1 MiB
as_message : Value → Result Error Bytes
unfolding as_bytes
as_message value = do m ← as_bytes value; raise_if (ltb max_payload (length m)) value_error; ok m

-- `_messages`
unfoldable pub check_messages : List Value → Result Error (List Bytes)
unfolding check_batch as_message
check_messages items = do
  batch ← check_batch items
  messages ← map_result as_message batch
  raise_if (ltb max_work (sum (map length messages) + 32 * length messages)) value_error
  ok messages
