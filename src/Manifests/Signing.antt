-- ===== src/Manifests/Signing.antt =====
-- What `seal_manifest` returns.
use mathlib.Core.Path.{subst}
use gpu_batch_crypto.Prelude.{
  raise_if-ok, ◌≤◌, ◌≡◌, List, [], ◌∷◌, map, Text, Bytes, Result, ok, raise_if, Returns,
  Returns-bind, Returns-ok, ltb, ltb_false→le, length,
}
use gpu_batch_crypto.Python.Values.{Value, bytes, Error, value_error}
use gpu_batch_crypto.Core.{check_messages}
use gpu_batch_crypto.Core.Bounds.{InBounds, check_messages-bounds}
use gpu_batch_crypto.Jws.{check_label, sign_es256}
use gpu_batch_crypto.Jws.Tokens.{Signed, sign_es256-Signed}
use gpu_batch_crypto.Receipts.Seal.{encode, first_token, is_empty}
use gpu_batch_crypto.Receipts.Sealed.{nonempty, only}
use gpu_batch_crypto.Manifests.{hashes_json, max_manifest, seal_manifest}

-- A manifest: the records, and the token that signs their hashes.
pub record Committed (sha256 : Bytes → Bytes) (items : List Value) (context key_id : Value)
    (sign_digests : List Bytes → Result Error (List Value)) (manifest : Text) : Type 0 where
  pub label : Text
  pub records : List Bytes
  pub named : check_label context ≡ ok label
  pub given : InBounds items records
  pub some_record : 1 ≤ length records
  pub signed :
      Signed sha256
        (bytes (encode (hashes_json label (map sha256 records))) ∷ [])
        key_id
        sign_digests
        (manifest ∷ [])
  pub short : length manifest ≤ max_manifest

module _ (sha256 : Bytes → Bytes) (items : List Value) (context key_id : Value)
    (sign_digests : List Bytes → Result Error (List Value)) where
  seal_manifest-Returns :
      Returns
        (Committed sha256 items context key_id sign_digests)
        (seal_manifest sha256 items context key_id sign_digests)
  unfolding seal_manifest
  seal_manifest-Returns =
      let P = Committed sha256 items context key_id sign_digests in
      Returns-bind P (check_label context) _ (λ label el.
        Returns-bind P (check_label key_id) _ (λ kid ek.
          Returns-bind P (check_messages items) _ (λ records em.
            Returns-bind P (raise_if (is_empty records) value_error) _ (λ u ee.
              Returns-bind P
                (sign_es256 sha256 (bytes (encode (hashes_json label (map sha256 records))) ∷ [])
                  key_id sign_digests)
                _
                (λ tokens es. Returns-bind P (first_token tokens) _ (λ manifest ef.
                  Returns-bind P (raise_if (ltb max_manifest (length manifest)) value_error) _
                    (λ u' short.
                      let signed = sign_es256-Signed sha256 _ key_id sign_digests es in
                      record {
                        label = label;
                        records = records;
                        named = el;
                        given = check_messages-bounds items em;
                        some_record = nonempty records (raise_if-ok _ value_error ee);
                        signed =
                            subst
                              (Signed sha256
                                (bytes (encode (hashes_json label (map sha256 records))) ∷ [])
                                key_id sign_digests)
                              (only tokens signed.as_many ef) signed;
                        short = ltb_false→le _ _ (raise_if-ok _ value_error short);
                      })))))))

-- A manifest that `seal_manifest` returns is of one record or more, within the bounds; it is the
-- one token, checked as `sign_es256` checks it, of the profile, the context, the number of the
-- records and the hash of each in their order; and it has at most 256 KiB.
pub seal_manifest-Committed :
    (sha256 : Bytes → Bytes) (items : List Value) (context key_id : Value)
    (sign_digests : List Bytes → Result Error (List Value)) {manifest : Text}
    → seal_manifest sha256 items context key_id sign_digests ≡ ok manifest
    → Committed sha256 items context key_id sign_digests manifest
seal_manifest-Committed sha256 items context key_id sign_digests h =
    Returns-ok (Committed sha256 items context key_id sign_digests)
      (seal_manifest sha256 items context key_id sign_digests)
      (seal_manifest-Returns sha256 items context key_id sign_digests) h
