-- ===== src/Manifests/Export.antt =====
-- `verify_all` of python/batchcrypto/manifests.py against the hashes of an export.
use gpu_batch_crypto.Prelude.{
  ℕ, zero, suc, ◌+◌, ◌≤◌, ◌≡◌, refl, sym, ap, ◌∙◌, ◌⊎◌, inl, inr, true, Option, none, some, List,
  [], ◌∷◌, ◌==◌, map, Bytes, ok, arith, Result-cases, length, length-map, get_elem?, All,
  text_eq_sound, text_eq_refl, ==_iff,
}
use gpu_batch_crypto.Python.Values.{Value, bytes}
use gpu_batch_crypto.Core.{max_payload, check_messages}
use gpu_batch_crypto.Core.Bounds.{check_messages-bounds}
use gpu_batch_crypto.Receipts.Sound.{Collision, same_text}
use gpu_batch_crypto.Manifests.{
  VerifiedManifest, matches, verify_record, verify_from, verify_checked, verify_all,
}

module _ (sha256 : Bytes → Bytes) where
  -- The hashes from an index on are those of the records.
  abbrev Hashes : List Bytes → ℕ → List Bytes → Type 0
  Hashes digests index rs =
      (j : ℕ) (r : Bytes)
      → get_elem? rs j ≡ some r
      → get_elem? digests (index + j) ≡ some (sha256 r)

  matches-some : (d : Bytes) (o : Option Bytes) → matches d o ≡ true → o ≡ some d
  unfolding matches
  matches-some d none h = absurd (ground (arith, h))
  matches-some d (some x) h = ap some (sym (text_eq_sound d x h))

  verify_from-Hashes :
      (m : VerifiedManifest) (index : ℕ) (rs : List Bytes)
      → verify_from sha256 m index rs ≡ true
      → Hashes m.digests index rs
  unfolding verify_from verify_record
  verify_from-Hashes m index [] h j r e = cc
  verify_from-Hashes m index (x ∷ rs) h zero r e =
      let here = matches-some (sha256 x) (get_elem? m.digests index) (ground (arith, h)) in
      let same : x ≡ r = ground (arith, e) in
      let start : index + 0 ≡ index = omega arith in rw (start, ← same) here
  verify_from-Hashes m index (x ∷ rs) h (suc j) r e =
      let next : index + suc j ≡ suc index + j = omega arith in
      rw next (verify_from-Hashes m (suc index) rs (ground (arith, h)) j r e)

  Hashes-verify_from :
      (m : VerifiedManifest) (index : ℕ) (rs : List Bytes)
      → Hashes m.digests index rs
      → All (λ (r : Bytes). length r ≤ max_payload) rs
      → verify_from sha256 m index rs ≡ true
  unfolding verify_from verify_record matches
  Hashes-verify_from m index [] h small = refl
  Hashes-verify_from m index (x ∷ rs) h small =
      let start : index + 0 ≡ index = omega arith in
      let first = h 0 x refl in
      let here : get_elem? m.digests index ≡ some (sha256 x) = (rw start at first) in
      let rest =
        Hashes-verify_from m (suc index) rs
          (λ j r e.
            let next : suc index + j ≡ index + suc j = omega arith in rw next (h (suc j) r e))
          small.1 in
      ground (arith, here, rest, text_eq_refl (sha256 x), small.0)

  own_hashes :
      (ms : List Bytes) (j : ℕ) (r : Bytes)
      → get_elem? ms j ≡ some r
      → get_elem? (map sha256 ms) j ≡ some (sha256 r)
  own_hashes [] j r e = cc
  own_hashes (x ∷ ms) zero r e = ground (arith, e)
  own_hashes (x ∷ ms) (suc j) r e = own_hashes ms j r e

  same_records :
      (rs ms : List Bytes)
      → length rs ≡ length ms
      → ((j : ℕ) (r : Bytes)
          → get_elem? rs j ≡ some r
          → get_elem? (map sha256 ms) j ≡ some (sha256 r))
      → (rs ≡ ms) ⊎ Collision sha256
  same_records [] [] n h = inl refl
  same_records [] (x ∷ ms) n h = absurd (omega (arith, n))
  same_records (r ∷ rs) [] n h = absurd (omega (arith, n))
  same_records (r ∷ rs) (x ∷ ms) n h =
      let first : some (sha256 x) ≡ some (sha256 r) = h 0 r refl in
      elim (same_text sha256 x r (ground (arith, first))) [
        | inr c ↦ inr c
        | inl same ↦ elim (same_records rs ms (omega (arith, n)) (λ j y e. h (suc j) y e)) [
          | inr c ↦ inr c
          | inl rest ↦ inl (cc (same, rest))
        ]
      ]

  -- With the hashes of some records in a manifest, `verify_all` returns True for nothing but the
  -- very records, in their order and number, or two texts of one hash are given.
  pub verify_all_sound :
      (m : VerifiedManifest) (ms : List Bytes) (items : List Value)
      → m.digests ≡ map sha256 ms
      → verify_all sha256 m items ≡ true
      → (items ≡ map bytes ms) ⊎ Collision sha256
  unfolding verify_all verify_checked
  verify_all_sound m ms items d h = elim (Result-cases (check_messages items)) [
    | inl (e, q) ↦ absurd (ground (arith, h, q))
    | inr (rs, q) ↦
        let many : (length rs == length m.digests) ≡ true = ground (arith, h, q) in
        let each : verify_from sha256 m 0 rs ≡ true = ground (arith, h, q) in
        let n : length rs ≡ length ms =
          (==_iff (length rs) (length m.digests)).0 many ∙ ap length d ∙ length-map sha256 ms in
        elim (same_records rs ms n (λ j r e.
          let start : 0 + j ≡ j = omega arith in
          let there = verify_from-Hashes m 0 rs each j r e in rw (← d, ← start) there)) [
            | inl same ↦ inl ((check_messages-bounds items q).0 ∙ ap (map bytes) same)
            | inr c ↦ inr c
          ]
  ]

  -- With their hashes in a manifest, `verify_all` returns True for records that the input checks
  -- let through.
  pub verify_all_complete :
      (m : VerifiedManifest) (ms : List Bytes) (items : List Value)
      → m.digests ≡ map sha256 ms
      → check_messages items ≡ ok ms
      → verify_all sha256 m items ≡ true
  unfolding verify_all verify_checked
  verify_all_complete m ms items d q =
      let (_, _, small, _) = check_messages-bounds items q in
      let many : (length ms == length m.digests) ≡ true =
        (==_iff (length ms) (length m.digests)).1
          (sym (length-map sha256 ms) ∙ ap length (sym d)) in
      let hashes : Hashes m.digests 0 ms =
        λ j r e. (let start : 0 + j ≡ j = omega arith in rw (d, start) (own_hashes ms j r e)) in
      let each = Hashes-verify_from m 0 ms hashes small in ground (arith, q, many, each)
