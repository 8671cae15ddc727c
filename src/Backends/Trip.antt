-- ===== src/Backends/Trip.antt =====
-- Opening what was sealed, with `Cpu` of python/batchcrypto/__init__.py.
use gpu_batch_crypto.Prelude.{
  ℕ, ◌+◌, ◌-◌, ◌≤◌, ◌≡◌, refl, sym, ◌∙◌, ap, Bool, true, false, ◌&&◌, ◌||◌, not, some, List, [],
  ◌∷◌, map, Bytes, text_eq, Result, ok, raise_if, raise_if-ok, Returns, Returns-bind, Returns-ok,
  ltb, ◌==◌, length, any, arith, length-map,
}
use gpu_batch_crypto.Python.Values.{Value, bytes, str, int, other, Error, value_error}
use gpu_batch_crypto.Core.{
  Record, ByteRecord, as_bytes, as_byte_record, check_key, check_batch, check_record, check_each,
  check_records, record_work, max_aad, max_payload, max_batch, max_work,
}
use gpu_batch_crypto.Core.Bounds.{check_batch-ok, check_batch_short}
use gpu_batch_crypto.Backends.Cpu.{Openssl, key_bytes, sealed, unsealed, seal, open_records}

-- The record with its data in the place of what was sealed.
abbrev pub with_payload : Record → Bytes → Record
with_payload r c = record r { payload = bytes c }

-- The records to open: those that were sealed, with the sealed data.
unfoldable pub to_open : List Record → List Bytes → List Record
to_open [] cs = []
to_open (r ∷ rs) [] = []
to_open (r ∷ rs) (c ∷ cs) = with_payload r c ∷ to_open rs cs

as_bytes-inv : (v : Value) {b : Bytes} → as_bytes v ≡ ok b → v ≡ bytes b
unfolding as_bytes
as_bytes-inv (bytes c) h = ground (arith, h)
as_bytes-inv (str t) h = cc
as_bytes-inv (int n) h = cc
as_bytes-inv other h = cc

-- `_records`, taken apart.
record Passed (key : Value) (records : List Record) (opening : Bool) (rs : List ByteRecord)
    : Type 0 where
  secret : Bytes
  work : ℕ
  key_ok : check_key key ≡ ok secret
  few : length records ≤ max_batch
  each :
      ◌≡◌ {A = Result Error (List ByteRecord × ℕ)} (check_each opening [] 0 records) (ok (rs, work))
  light : ltb max_work work ≡ false

check_records-Passed :
    (key : Value) (records : List Record) (opening : Bool)
    → Returns (Passed key records opening) (check_records key records opening)
unfolding check_records
check_records-Passed key records opening = Returns-bind P (check_key key) _ (λ k ek.
    Returns-bind P (check_batch records) _ (λ batch eb.
      Returns-bind P (check_each opening [] 0 batch) _ (λ z ez.
        Returns-bind P (raise_if (ltb max_work z.1) value_error) _ (λ _ ew.
          let (same, few) = check_batch-ok records eb in
          record {
            secret = k;
            work = z.1;
            key_ok = ek;
            few = few;
            each = rw (← same) ez;
            light = raise_if-ok _ value_error ew;
          }))))
  where
    P : List ByteRecord → Type 0
    P = Passed key records opening

Passed-check_records :
    (key : Value) (records : List Record) (opening : Bool) (rs : List ByteRecord)
    → Passed key records opening rs
    → check_records key records opening ≡ ok rs
unfolding check_records
Passed-check_records key records opening rs h =
    rw (h.key_ok, check_batch_short records h.few, h.each, h.light) refl

abbrev Fields : Record → ByteRecord → Type 0
Fields x r = (x.nonce ≡ bytes r.nonce) × (x.payload ≡ bytes r.payload) × (x.aad ≡ bytes r.aad)

as_byte_record-Fields : (x : Record) → Returns (Fields x) (as_byte_record x)
unfolding as_byte_record
as_byte_record-Fields x = Returns-bind (Fields x) (as_bytes x.nonce) _ (λ n en.
    Returns-bind (Fields x) (as_bytes x.payload) _ (λ d ed.
      Returns-bind (Fields x) (as_bytes x.aad) _
        (λ a ea. (as_bytes-inv x.nonce en, as_bytes-inv x.payload ed, as_bytes-inv x.aad ea))))

-- What the checks say of a record that is to be sealed.
record IsSealable (x : Record) (r : ByteRecord) : Type 0 where
  fields : Fields x r
  sizes : (not (length r.nonce == 12) || ltb max_aad (length r.aad)) ≡ false
  payload_size : length r.payload ≤ max_payload

check_record-IsSealable :
    (nonces : List Bytes) (x : Record) → Returns (IsSealable x) (check_record false nonces x)
unfolding check_record
check_record-IsSealable nonces x = Returns-bind (IsSealable x) (as_byte_record x) _ (λ r er.
    Returns-bind (IsSealable x)
      (raise_if (not (length r.nonce == 12) || ltb max_aad (length r.aad)) value_error) _
      (λ _ e₁.
        Returns-bind (IsSealable x)
          (raise_if (ltb (length r.payload) 0 || ltb max_payload (length r.payload - 0))
            value_error)
          _
          (λ _ e₂.
            Returns-bind (IsSealable x)
              (raise_if (not false && any (text_eq r.nonce) nonces) value_error) _
              (λ _ _. record {
                fields = Returns-ok (Fields x) (as_byte_record x) (as_byte_record-Fields x) er;
                sizes = raise_if-ok _ value_error e₁;
                payload_size = ground (arith, raise_if-ok _ value_error e₂);
              }))))

-- Such a record passes the checks of opening once it is sealed.
check_record-open :
    (nonces : List Bytes) (x : Record) (r : ByteRecord) (c : Bytes)
    → IsSealable x r
    → length c ≡ length r.payload + 16
    → check_record true nonces (with_payload x c) ≡ ok (record r { payload = c })
unfolding check_record as_byte_record as_bytes
check_record-open nonces x r c h n =
    let (en, _, ea) = h.fields in rw (en, ea) (ground (arith, h.sizes, h.payload_size, n))

module _ (o : Openssl) (opens : (k n d a : Bytes) → o.decrypt k n (o.encrypt k n d a) a ≡ some d)
    (grows : (k n d a : Bytes) → length (o.encrypt k n d a) ≡ length d + 16) (key : Value) where
  -- A record with its data sealed.
  closed : ByteRecord → ByteRecord
  closed r = record r { payload = sealed o key r }

  opened-again : (r : ByteRecord) → unsealed o key (closed r) ≡ some r.payload
  unfolding unsealed closed sealed
  opened-again r = opens (key_bytes key) r.nonce r.payload r.aad

  length-sealed : (r : ByteRecord) → length (sealed o key r) ≡ length r.payload + 16
  unfolding sealed
  length-sealed r = grows (key_bytes key) r.nonce r.payload r.aad

  -- What the loop over the records to open gives, with the work of sealing.
  abbrev Reopens : List Record → List Bytes → ℕ → List ByteRecord × ℕ → Type 0
  Reopens xs nonces work z =
      ◌≡◌ {A = Result Error (List ByteRecord × ℕ)}
        (check_each true nonces work (to_open xs (map (sealed o key) (z.0))))
        (ok (map closed (z.0), z.1))
      × (map (λ (x : Record). some (key_bytes x.payload)) xs
          ≡ map (λ (r : ByteRecord). some (r.payload)) (z.0))

  same_work : (r : ByteRecord) → record_work true (closed r) ≡ record_work false r
  unfolding closed
  same_work r = omega (arith, length-sealed r)

  Reopens-cons :
      (x : Record) (xs : List Record) (r : ByteRecord) (z : List ByteRecord × ℕ)
      (nonces : List Bytes) (work : ℕ)
      → IsSealable x r
      → Reopens xs (r.nonce ∷ nonces) (work + record_work false r) z
      → Reopens (x ∷ xs) nonces work (r ∷ z.0, z.1)
  unfolding check_each to_open key_bytes closed
  Reopens-cons x xs r z nonces work good (rest, texts) =
      let first : check_record true nonces (with_payload x (sealed o key r)) ≡ ok (closed r) =
        check_record-open nonces x r (sealed o key r) good (length-sealed r) in
      let (_, payload, _) = good.fields in
      (rw (first, same_work r, rest) refl, rw (payload, texts) refl)

  check_each-Reopens :
      (xs : List Record) (nonces nonces' : List Bytes) (work : ℕ)
      → Returns (Reopens xs nonces' work) (check_each false nonces work xs)
  unfolding check_each to_open key_bytes
  check_each-Reopens [] nonces nonces' work = (refl, refl)
  check_each-Reopens (x ∷ xs) nonces nonces' work =
      Returns-bind (Reopens (x ∷ xs) nonces' work) (check_record false nonces x) _ (λ r e.
        Returns-bind (Reopens (x ∷ xs) nonces' work)
          (check_each false (r.nonce ∷ nonces) (work + record_work false r) xs) _
          (λ z ez.
            let good : IsSealable x r =
              Returns-ok (IsSealable x) _ (check_record-IsSealable nonces x) e in
            Reopens-cons x xs r z nonces' work good (
              Returns-ok (Reopens xs (r.nonce ∷ nonces') (work + record_work false r)) _
                (check_each-Reopens xs (r.nonce ∷ nonces) (r.nonce ∷ nonces')
                  (work + record_work false r))
                ez)))

  length-to_open :
      (xs : List Record) (cs : List Bytes)
      → length cs ≡ length xs
      → length (to_open xs cs) ≡ length xs
  unfolding to_open
  length-to_open [] cs h = refl
  length-to_open (x ∷ xs) [] h = absurd (omega (arith, h))
  length-to_open (x ∷ xs) (c ∷ cs) h = omega (arith, length-to_open xs cs (omega (arith, h)))

  all-opened :
      (rs : List ByteRecord)
      → map (unsealed o key) (map closed rs) ≡ map (λ (r : ByteRecord). some (r.payload)) rs
  all-opened [] = refl
  all-opened (r ∷ rs) = cc (opened-again r, all-opened rs)

  abbrev Reopened : List Record → List Bytes → Type 0
  Reopened records cs =
      open_records o key (to_open records cs)
      ≡ ok (map (λ (x : Record). some (key_bytes x.payload)) records)

  reopened :
      (records : List Record) (rs : List ByteRecord)
      → Passed key records false rs
      → Reopened records (map (sealed o key) rs)
  unfolding open_records
  reopened records rs h =
      let (loop, texts) =
        Returns-ok (Reopens records [] 0) _ (check_each-Reopens records [] [] 0) h.each in
      let same : length rs ≡ length records =
        sym (length-map (λ (r : ByteRecord). some (r.payload)) rs)
        ∙ ap length (sym texts)
        ∙ length-map (λ (x : Record). some (key_bytes x.payload)) records in
      let checked : check_records key (to_open records (map (sealed o key) rs)) true
          ≡ ok (map closed rs) =
        Passed-check_records key (to_open records (map (sealed o key) rs)) true (map closed rs)
          (record {
            secret = h.secret;
            work = h.work;
            key_ok = h.key_ok;
            few = omega (
              arith,
              h.few,
              length-to_open records (map (sealed o key) rs) (length-map (sealed o key) rs ∙ same),
            );
            each = loop;
            light = h.light;
          }) in
      rw (checked, all-opened rs, texts) refl

  seal-Reopened : (records : List Record) → Returns (Reopened records) (seal o key records)
  unfolding seal
  seal-Reopened records =
      Returns-bind (Reopened records) (check_records key records false) _ (λ rs e.
        reopened records rs
          (Returns-ok (Passed key records false) _ (check_records-Passed key records false) e))

-- With an authenticated cipher whose opening undoes its sealing and whose tag has sixteen bytes:
-- whatever list of records Cpu.seal seals, Cpu.open accepts the same records with the sealed data
-- in the place of their data, and gives back the data of each.
pub seal-open_records :
    (o : Openssl)
    → ((k n d a : Bytes) → o.decrypt k n (o.encrypt k n d a) a ≡ some d)
    → ((k n d a : Bytes) → length (o.encrypt k n d a) ≡ length d + 16)
    → (key : Value) (records : List Record) {cs : List Bytes} → seal o key records ≡ ok cs
    → open_records o key (to_open records cs)
      ≡ ok (map (λ (x : Record). some (key_bytes x.payload)) records)
seal-open_records o opens grows key records =
    Returns-ok (Reopened o opens grows key records) _ (seal-Reopened o opens grows key records)
