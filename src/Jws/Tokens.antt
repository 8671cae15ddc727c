-- ===== src/Jws/Tokens.antt =====
-- What `sign_es256` returns.
use gpu_batch_crypto.Prelude.{
  raise_if-ok, not-false, ◌≡◌, refl, sym, ap, ◌∙◌, inl, inr, true, not, List, [], ◌∷◌, map, Text,
  Bytes, Result, ok, raise_if, map_result, Returns, Returns-bind, Returns-ok, arith, ==_iff, ◌==◌,
  Bool-cases, length, All, length-map,
}
use gpu_batch_crypto.Python.Values
use gpu_batch_crypto.Python.Values.{Value, bytes, str, Error, value_error}
use gpu_batch_crypto.Core.{as_bytes, check_batch, check_messages}
use gpu_batch_crypto.Core.Bounds.{InBounds, check_batch-ok, check_messages-bounds}
use gpu_batch_crypto.Jws.{
  is_label, check_label, is_low_s, check_signature, header, signing_input, join_tokens, sign_es256,
}

-- A raw signature of 64 bytes with both scalars in range and the second one low.
abbrev pub IsSignature : Bytes → Type 0
IsSignature sig = (length sig ≡ 64) × (is_low_s sig ≡ true)

abbrev Labels : Value → Text → Type 0
Labels v t = (v ≡ str t) × (is_label t ≡ true)

check_label-Returns : (v : Value) → Returns (Labels v) (check_label v)
unfolding check_label
check_label-Returns (str t) = elim (Bool-cases (is_label t)) [
  | inl good ↦ rw good (refl, good)
  | inr bad ↦ rw bad tt
]
check_label-Returns (bytes b) = tt
check_label-Returns (Values.int n) = tt
check_label-Returns Values.other = tt

as_bytes-Returns : (v : Value) → Returns (λ (b : Bytes). v ≡ bytes b) (as_bytes v)
unfolding as_bytes
as_bytes-Returns (bytes b) = refl
as_bytes-Returns (str t) = tt
as_bytes-Returns (Values.int n) = tt
as_bytes-Returns Values.other = tt

abbrev SignatureOf : Value → Bytes → Type 0
SignatureOf v sig = (v ≡ bytes sig) × IsSignature sig

check_signature-Returns : (v : Value) → Returns (SignatureOf v) (check_signature v)
unfolding check_signature
check_signature-Returns v =
    let P = SignatureOf v in
    Returns-bind P (as_bytes v) _ (λ sig e.
      Returns-bind P (raise_if (not (length sig == 64)) value_error) _ (λ u size.
        Returns-bind P (raise_if (not (is_low_s sig)) value_error) _ (λ u' low.
          let sized : (length sig == 64) ≡ true = not-false (raise_if-ok _ value_error size) in
          (
            Returns-ok (λ (b : Bytes). v ≡ bytes b) (as_bytes v) (as_bytes-Returns v) e,
            ((==_iff (length sig) 64).0 sized, not-false (raise_if-ok _ value_error low)),
          ))))

abbrev AreSignatures : List Value → List Bytes → Type 0
AreSignatures vs sigs = (vs ≡ map bytes sigs) × All IsSignature sigs

signatures-Returns : (vs : List Value) → Returns (AreSignatures vs) (map_result check_signature vs)
signatures-Returns [] = (refl, tt)
signatures-Returns (v ∷ vs) =
    let P = AreSignatures (v ∷ vs) in
    Returns-bind P (check_signature v) _ (λ sig e.
      Returns-bind P (map_result check_signature vs) _ (λ sigs es.
        let (is, good) =
          Returns-ok (SignatureOf v) (check_signature v) (check_signature-Returns v) e in
        let (are, all_good) =
          Returns-ok (AreSignatures vs) (map_result check_signature vs) (signatures-Returns vs)
            es in
        (cc (is, are), (good, all_good))))

length-join_tokens :
    (inputs : List Text) (sigs : List Bytes)
    → length sigs ≡ length inputs
    → length (join_tokens inputs sigs) ≡ length inputs
unfolding join_tokens
length-join_tokens [] sigs h = refl
length-join_tokens (i ∷ is) [] h = absurd (omega (arith, h))
length-join_tokens (i ∷ is) (s ∷ ss) h = omega (arith, length-join_tokens is ss (omega (arith, h)))

-- The tokens of a call: what the payloads, the inputs and the signatures are.
pub record Signed (sha256 : Bytes → Bytes) (items : List Value) (key_id : Value)
    (sign_digests : List Bytes → Result Error (List Value)) (tokens : List Text) : Type 0 where
  pub kid : Text
  pub payloads : List Bytes
  pub signatures : List Bytes
  pub label : key_id ≡ str kid
  pub printable : is_label kid ≡ true
  pub given : InBounds items payloads
  pub returned :
      sign_digests (map sha256 (map (signing_input (header kid)) payloads))
      ≡ ok (map bytes signatures)
  pub good : All IsSignature signatures
  pub joined : tokens ≡ join_tokens (map (signing_input (header kid)) payloads) signatures
  pub as_many : length tokens ≡ length items

module _ (sha256 : Bytes → Bytes) (items : List Value) (key_id : Value)
    (sign_digests : List Bytes → Result Error (List Value)) where
  sign_es256-Returns :
      Returns
        (Signed sha256 items key_id sign_digests)
        (sign_es256 sha256 items key_id sign_digests)
  unfolding sign_es256
  sign_es256-Returns =
      let P = Signed sha256 items key_id sign_digests in
      Returns-bind P (check_label key_id) _ (λ kid ek.
        Returns-bind P (check_messages items) _ (λ payloads ep.
          let inputs = map (signing_input (header kid)) payloads in
          Returns-bind P (sign_digests (map sha256 inputs)) _ (λ returned er.
            Returns-bind P (check_batch returned) _ (λ outputs eo.
              Returns-bind P (raise_if (not (length outputs == length inputs)) value_error) _
                (λ u en. Returns-bind P (map_result check_signature outputs) _ (λ sigs es.
                  signed kid payloads returned outputs sigs ek ep er eo
                    (not-false (raise_if-ok _ value_error en)) es))))))
    where
      signed :
          (kid : Text) (payloads : List Bytes) (returned outputs : List Value) (sigs : List Bytes)
          → check_label key_id ≡ ok kid
          → check_messages items ≡ ok payloads
          → sign_digests (map sha256 (map (signing_input (header kid)) payloads)) ≡ ok returned
          → check_batch returned ≡ ok outputs
          → (length outputs == length (map (signing_input (header kid)) payloads)) ≡ true
          → map_result check_signature outputs ≡ ok sigs
          → Signed sha256 items key_id sign_digests
              (join_tokens (map (signing_input (header kid)) payloads) sigs)
      signed kid payloads returned outputs sigs ek ep er eo en es =
          let inputs = map (signing_input (header kid)) payloads in
          let (is_label, printable) =
            Returns-ok (Labels key_id) (check_label key_id) (check_label-Returns key_id) ek in
          let given = check_messages-bounds items ep in
          let (same, few) = check_batch-ok returned eo in
          let (are, good) =
            Returns-ok (AreSignatures outputs) (map_result check_signature outputs)
              (signatures-Returns outputs) es in
          let count : length outputs ≡ length inputs =
            (==_iff (length outputs) (length inputs)).0 en in
          let sig_count : length sigs ≡ length inputs =
            sym (length-map bytes sigs) ∙ ap length (sym are) ∙ count in
          record {
            kid = kid;
            payloads = payloads;
            signatures = sigs;
            label = is_label;
            printable = printable;
            given = given;
            returned = er ∙ ap ok (sym same ∙ are);
            good = good;
            joined = refl;
            as_many =
                length-join_tokens inputs sigs sig_count
                ∙ length-map (signing_input (header kid)) payloads
                ∙ sym (length-map bytes payloads)
                ∙ ap length (sym given.0);
          }

-- A call of `sign_es256` that returns gives one token for each payload, in their order: the header
-- under a printable key id, the payload and the signature, each in base64url; the payloads are the
-- argument, within the bounds; the callback was given their digests, and every signature that it
-- returned has 64 bytes, both scalars in range and a low s.
pub sign_es256-Signed :
    (sha256 : Bytes → Bytes) (items : List Value) (key_id : Value)
    (sign_digests : List Bytes → Result Error (List Value)) {tokens : List Text}
    → sign_es256 sha256 items key_id sign_digests ≡ ok tokens
    → Signed sha256 items key_id sign_digests tokens
sign_es256-Signed sha256 items key_id sign_digests h =
    Returns-ok (Signed sha256 items key_id sign_digests)
      (sign_es256 sha256 items key_id sign_digests)
      (sign_es256-Returns sha256 items key_id sign_digests) h
