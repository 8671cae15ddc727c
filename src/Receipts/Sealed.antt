-- ===== src/Receipts/Sealed.antt =====
-- What `seal_records` (python/batchcrypto/receipts.py) returns.
use mathlib.Core.Path.{subst}
use gpu_batch_crypto.Prelude.{
  raise_if-ok, true, Bool, ℕ, ◌≤◌, ◌≡◌, sym, ◌∙◌, false, Option, none, some, List, [], ◌∷◌, Text,
  Bytes, Result, ok, raise_if, Returns, Returns-bind, Returns-ok, arith, length, get_elem?,
}
use gpu_batch_crypto.Prelude.Int.{pos}
use gpu_batch_crypto.Python.Values.{Value, Error, value_error}
use gpu_batch_crypto.Core.{check_messages}
use gpu_batch_crypto.Core.Bounds.{InBounds, check_messages-bounds}
use gpu_batch_crypto.Jws.{check_label, sign_es256}
use gpu_batch_crypto.Jws.Tokens.{Signed, sign_es256-Signed}
use gpu_batch_crypto.Receipts.Tree.{Paths, tree, included}
use gpu_batch_crypto.Receipts.Included.{get_elem?-lt, Proven, tree_all-Proven}
use gpu_batch_crypto.Receipts.Seal.{
  SealedBatch, encode, manifest_json, first_token, made_tree, is_empty, seal_records, receipt_json,
  receipt,
}

-- A batch that was sealed: its records, the root of their tree, and the token that signs it.
pub record Sealed (sha256 : Bytes → Bytes) (items : List Value) (context key_id : Value)
    (sign_digests : List Bytes → Result Error (List Value)) (batch : SealedBatch) : Type 0 where
  pub label : Text
  pub records : List Bytes
  pub root : Bytes
  pub named : check_label context ≡ ok label
  pub checked : check_messages items ≡ ok records
  pub given : InBounds items records
  pub some_record : 1 ≤ length records
  pub made : tree sha256 records ≡ some (root, batch.paths)
  pub signed :
      Signed sha256
        (Value.bytes (encode (manifest_json label (length records) root)) ∷ [])
        key_id
        sign_digests
        (batch.manifest ∷ [])

pub nonempty : (records : List Bytes) → is_empty records ≡ false → 1 ≤ length records
unfolding is_empty
nonempty [] h = absurd (ground (arith, h))
nonempty (r ∷ rs) h = omega arith

pub only :
    (tokens : List Text) {t : Text}
    → length tokens ≡ 1
    → first_token tokens ≡ ok t
    → tokens ≡ t ∷ []
unfolding first_token
only [] n h = absurd (omega (arith, n))
only (u ∷ []) n h = ground (arith, h)
only (u ∷ v ∷ us) n h = absurd (omega (arith, n))

made-some : (o : Option (Bytes × Paths)) {t : Bytes × Paths} → made_tree o ≡ ok t → o ≡ some t
unfolding made_tree
made-some none h = absurd (ground (arith, h))
made-some (some t) h = ground (arith, h)

tree_made-Proven :
    (sha256 : Bytes → Bytes) (records : List Bytes) (t : Bytes × Paths)
    → 1 ≤ length records
    → tree sha256 records ≡ some t
    → (j : ℕ) (r : Bytes) → get_elem? records j ≡ some r
    → Proven sha256 records t.0 t.1 j r
tree_made-Proven sha256 records t some_record made =
    let (root', paths', made', all) = tree_all-Proven sha256 records some_record in
    let both : ◌≡◌ {A = Option (Bytes × Paths)} (some (root', paths')) (some t) =
      sym made' ∙ made in
    let same : ◌≡◌ {A = Bytes × Paths} (root', paths') t = ground (arith, both) in
    subst
      (λ (t : Bytes × Paths).
        (j : ℕ) (r : Bytes) → get_elem? records j ≡ some r → Proven sha256 records t.0 t.1 j r)
      same all

module _ (sha256 : Bytes → Bytes) (items : List Value) (context key_id : Value)
    (sign_digests : List Bytes → Result Error (List Value)) where
  sealed :
      (label : Text) (records : List Bytes) (t : Bytes × Paths) (tokens : List Text)
      (manifest : Text)
      → check_label context ≡ ok label
      → check_messages items ≡ ok records
      → is_empty records ≡ false
      → tree sha256 records ≡ some t
      → sign_es256 sha256
          (Value.bytes (encode (manifest_json label (length records) t.0)) ∷ [])
          key_id
          sign_digests
        ≡ ok tokens
      → first_token tokens ≡ ok manifest
      → Sealed sha256 items context key_id sign_digests
          (record { manifest = manifest; paths = t.1 })
  sealed label records (root, paths) tokens manifest el em some_record made es ef =
      let signed = sign_es256-Signed sha256 _ key_id sign_digests es in
      let one = only tokens signed.as_many ef in
      record {
        label = label;
        records = records;
        root = root;
        named = el;
        checked = em;
        given = check_messages-bounds items em;
        some_record = nonempty records some_record;
        made = made;
        signed =
            subst
              (Signed sha256 (Value.bytes (encode (manifest_json label (length records) root)) ∷ [])
                key_id sign_digests)
              one signed;
      }

  seal_records-Returns :
      Returns
        (Sealed sha256 items context key_id sign_digests)
        (seal_records sha256 items context key_id sign_digests)
  unfolding seal_records
  seal_records-Returns =
      let P = Sealed sha256 items context key_id sign_digests in
      Returns-bind P (check_label context) _ (λ label el.
        Returns-bind P (check_label key_id) _ (λ kid ek.
          Returns-bind P (check_messages items) _ (λ records em.
            Returns-bind P (raise_if (is_empty records) value_error) _ (λ u ee.
              Returns-bind P (made_tree (tree sha256 records)) _ (λ t et.
                Returns-bind P
                  (sign_es256 sha256
                    (Value.bytes (encode (manifest_json label (length records) t.0)) ∷ []) key_id
                    sign_digests)
                  _
                  (λ tokens es. Returns-bind P (first_token tokens) _ (λ manifest ef.
                    sealed label records t tokens manifest el em (raise_if-ok _ value_error ee)
                      (made-some (tree sha256 records) et) es ef)))))))

-- A batch that `seal_records` returns is of one record or more, within the bounds; its manifest is
-- the one token, checked as `sign_es256` checks it, of the profile, the context, the number of the
-- records and the root of their tree, whose paths the batch holds.
pub seal_records-Sealed :
    (sha256 : Bytes → Bytes) (items : List Value) (context key_id : Value)
    (sign_digests : List Bytes → Result Error (List Value)) {batch : SealedBatch}
    → seal_records sha256 items context key_id sign_digests ≡ ok batch
    → Sealed sha256 items context key_id sign_digests batch
seal_records-Sealed sha256 items context key_id sign_digests h =
    Returns-ok (Sealed sha256 items context key_id sign_digests)
      (seal_records sha256 items context key_id sign_digests)
      (seal_records-Returns sha256 items context key_id sign_digests) h

-- The receipt of a record, and that its path is accepted.
pub record Receipted (sha256 : Bytes → Bytes) (records : List Bytes) (batch : SealedBatch) (j : ℕ)
    (r : Bytes) (include_manifest : Bool) : Type 0 where
  pub root : Bytes
  pub path : List Bytes
  pub made : tree sha256 records ≡ some (root, batch.paths)
  pub returned :
      receipt batch (Value.int (pos j)) include_manifest
      ≡ ok (encode (receipt_json j path include_manifest batch.manifest))
  pub accepted : included sha256 r j (length records) path root ≡ true

receipted :
    (sha256 : Bytes → Bytes) (records : List Bytes) (batch : SealedBatch) (root : Bytes) (j : ℕ)
    (r : Bytes) (include_manifest : Bool)
    → tree sha256 records ≡ some (root, batch.paths)
    → get_elem? records j ≡ some r
    → Receipted sha256 records batch j r include_manifest
unfolding receipt
receipted sha256 records batch root j r include_manifest made found =
    let p =
      tree_made-Proven sha256 records (root, batch.paths)
        (omega (arith, get_elem?-lt records j found)) made j r found in
    record {
      root = root;
      path = p.path;
      made = made;
      returned = ground (arith, p.listed);
      accepted = p.accepted;
    }

-- For every record of a batch that was sealed, `receipt` returns the index of the record with a
-- path, and with the manifest where it is asked for; and `_included` accepts the path for the
-- record at that index against the root of the tree.
pub seal_records-Receipted :
    (sha256 : Bytes → Bytes) (items : List Value) (context key_id : Value)
    (sign_digests : List Bytes → Result Error (List Value)) {batch : SealedBatch}
    (records : List Bytes) (j : ℕ) (r : Bytes) (include_manifest : Bool)
    → seal_records sha256 items context key_id sign_digests ≡ ok batch
    → check_messages items ≡ ok records
    → get_elem? records j ≡ some r
    → Receipted sha256 records batch j r include_manifest
seal_records-Receipted sha256 items context key_id sign_digests {batch} records j r include_manifest
      h checked found =
    let s = seal_records-Sealed sha256 items context key_id sign_digests h in
    let same : s.records ≡ records = ground (arith, sym s.checked ∙ checked) in
    let made : tree sha256 records ≡ some (s.root, batch.paths) = (rw same at s.made) in
    receipted sha256 records batch s.root j r include_manifest made found
