-- ===== src/Backends/Limits.antt =====
-- The arguments that the native library accepts (src/engine/crypto_engine.cu, the loop of `aead`;
-- include/batchcrypto.h), and why the checks of python/batchcrypto/__init__.py are enough for them.
use gpu_batch_crypto.Prelude.{
  ℕ, ◌+◌, ◌-◌, ◌≤◌, ◌≡◌, refl, Bool, true, false, ◌&&◌, ◌||◌, not, List, [], ◌∷◌, map, Bytes,
  text_eq, ok, raise_if, raise_if-ok, Returns, Returns-bind, Returns-ok, ltb, leb, ◌==◌, length,
  length-map, any, arith, if◌then◌else◌, ltb_false→le,
}
use gpu_batch_crypto.Python.Values.{Value, bytes, str, int, other, value_error}
use gpu_batch_crypto.Core.{
  Record, ByteRecord, as_bytes, as_byte_record, check_key, check_batch, check_record, check_each,
  check_records, record_work, tag_size, max_aad, max_payload, max_batch, max_work,
}
use gpu_batch_crypto.Core.Bounds.{check_batch-ok}
use gpu_batch_crypto.Backends.Native.{Item, output_size, to_item}
use gpu_batch_crypto.Backends.Cpu.{key_bytes}

-- The tests of one item: its sizes, the room for its output and, when sealing, a new nonce.
fits : Bool → List Bytes → Item → Bool
fits opening nonces it =
    let size = length it.input - tag_size opening in
    let output = if opening then size else size + 16 in
    leb (tag_size opening) (length it.input)
    && leb size max_payload
    && leb (length it.aad) max_aad
    && length it.nonce == 12
    && leb output it.output_capacity
    && not (not opening && any (text_eq it.nonce) nonces)

-- ni + no + na
item_work : Bool → Item → ℕ
item_work opening it =
    let size = length it.input - tag_size opening in
    length it.input + (if opening then size else size + 16) + length it.aad

-- The loop over the items, with the nonces and the work so far.
unfoldable pub accepts : Bool → List Bytes → ℕ → List Item → Bool
unfolding fits item_work
accepts opening nonces work [] = true
accepts opening nonces work (it ∷ items) =
    fits opening nonces it
    && leb (work + item_work opening it) max_work
    && accepts opening (it.nonce ∷ nonces) (work + item_work opening it) items

-- The arguments of a call.
pub record Valid (opening : Bool) (key : Bytes) (items : List Item) : Type 0 where
  pub key_size : length key ≡ 32
  pub few : length items ≤ max_batch
  pub accepted : accepts opening [] 0 items ≡ true

-- What the checks say of one record.
record Checked (opening : Bool) (nonces : List Bytes) (r : ByteRecord) : Type 0 where
  sizes : (not (length r.nonce == 12) || ltb max_aad (length r.aad)) ≡ false
  payload :
      (ltb (length r.payload) (tag_size opening)
        || ltb max_payload (length r.payload - tag_size opening))
      ≡ false
  fresh : (not opening && any (text_eq r.nonce) nonces) ≡ false

check_record-Checked :
    (opening : Bool) (nonces : List Bytes) (x : Record)
    → Returns (Checked opening nonces) (check_record opening nonces x)
unfolding check_record
check_record-Checked opening nonces x =
    let P = Checked opening nonces in
    Returns-bind P (as_byte_record x) _ (λ r _.
      Returns-bind P
        (raise_if (not (length r.nonce == 12) || ltb max_aad (length r.aad)) value_error) _
        (λ _ e₁.
          Returns-bind P
            (raise_if
              (ltb (length r.payload) (tag_size opening)
                || ltb max_payload (length r.payload - tag_size opening))
              value_error)
            _
            (λ _ e₂.
              Returns-bind P (raise_if (not opening && any (text_eq r.nonce) nonces) value_error) _
                (λ _ e₃. record {
                  sizes = raise_if-ok _ value_error e₁;
                  payload = raise_if-ok _ value_error e₂;
                  fresh = raise_if-ok _ value_error e₃;
                }))))

Checked-fits :
    (opening : Bool) (nonces : List Bytes) (r : ByteRecord)
    → Checked opening nonces r
    → fits opening nonces (to_item opening r) ≡ true
unfolding fits to_item output_size
Checked-fits true nonces r c = ground (arith, c.sizes, c.payload, c.fresh)
Checked-fits false nonces r c = ground (arith, c.sizes, c.payload, c.fresh)

work-same :
    (opening : Bool) (nonces : List Bytes) (r : ByteRecord)
    → Checked opening nonces r
    → item_work opening (to_item opening r) ≡ record_work opening r
unfolding item_work to_item
work-same true nonces r c = ground (arith, c.payload)
work-same false nonces r c = ground (arith)

-- What the loop of `_records` gives.
abbrev Within : Bool → List Bytes → ℕ → List Record → List ByteRecord × ℕ → Type 0
Within opening nonces work xs z =
    (work ≤ z.1)
    × (length (z.0) ≡ length xs)
    × (z.1 ≤ max_work → accepts opening nonces work (map (to_item opening) (z.0)) ≡ true)

Within-cons :
    (opening : Bool) (nonces : List Bytes) (work : ℕ) (x : Record) (xs : List Record)
    (r : ByteRecord) (z : List ByteRecord × ℕ)
    → Checked opening nonces r
    → Within opening (r.nonce ∷ nonces) (work + record_work opening r) xs z
    → Within opening nonces work (x ∷ xs) (r ∷ z.0, z.1)
unfolding accepts to_item
Within-cons opening nonces work x xs r z c (more, same, rest) = (
  omega (arith, more),
  omega (arith, same),
  λ light.
      rw (Checked-fits opening nonces r c, work-same opening nonces r c, rest light)
        (ground (arith, more, light)),
)

check_each-Within :
    (opening : Bool) (nonces : List Bytes) (work : ℕ) (xs : List Record)
    → Returns (Within opening nonces work xs) (check_each opening nonces work xs)
unfolding check_each accepts
check_each-Within opening nonces work [] = (omega arith, refl, λ _. refl)
check_each-Within opening nonces work (x ∷ xs) =
    let P = Within opening nonces work (x ∷ xs) in
    Returns-bind P (check_record opening nonces x) _ (λ r e.
      Returns-bind P (check_each opening (r.nonce ∷ nonces) (work + record_work opening r) xs) _
        (λ z ez.
          let good : Checked opening nonces r =
            Returns-ok (Checked opening nonces) _ (check_record-Checked opening nonces x) e in
          Within-cons opening nonces work x xs r z good (
            Returns-ok (Within opening (r.nonce ∷ nonces) (work + record_work opening r) xs) _
              (check_each-Within opening (r.nonce ∷ nonces) (work + record_work opening r) xs) ez)))

check_key-size : (key : Value) {k : Bytes} → check_key key ≡ ok k → length (key_bytes key) ≡ 32
unfolding check_key as_bytes key_bytes
check_key-size (bytes b) h = ground (arith, h)
check_key-size (str t) h = absurd (ground (arith, h))
check_key-size (int n) h = absurd (ground (arith, h))
check_key-size other h = absurd (ground (arith, h))

-- The records that pass the checks of Python are within the limits of the library.
pub check_records-Valid :
    (key : Value) (records : List Record) (opening : Bool)
    → Returns
        (λ rs. Valid opening (key_bytes key) (map (to_item opening) rs))
        (check_records key records opening)
unfolding check_records
check_records-Valid key records opening = Returns-bind P (check_key key) _ (λ k ek.
    Returns-bind P (check_batch records) _ (λ batch eb.
      Returns-bind P (check_each opening [] 0 batch) _ (λ z ez.
        Returns-bind P (raise_if (ltb max_work z.1) value_error) _ (λ _ ew.
          let (same, few) = check_batch-ok records eb in
          let (_, many, fine) =
            Returns-ok (Within opening [] 0 batch) _ (check_each-Within opening [] 0 batch) ez in
          let count : length (z.0) ≡ length records = rw (← same) many in
          record {
            key_size = check_key-size key ek;
            few = omega (arith, length-map (to_item opening) (z.0), count, few);
            accepted = fine (ltb_false→le _ _ (raise_if-ok _ value_error ew));
          }))))
  where
    P : List ByteRecord → Type 0
    P rs = Valid opening (key_bytes key) (map (to_item opening) rs)
