-- ===== src/Verified/Trust.antt =====
-- What `VerifiedSigner.sign` (python/batchcrypto/verified.py) returns.
use gpu_batch_crypto.Prelude.{
  ℕ, ◌≡◌, refl, sym, ap, ◌∙◌, inl, inr, Bool, true, false, ◌&&◌, some, List, [], ◌∷◌, ◌==◌, map,
  Bytes, Result, ok, err, arith, if◌then◌else◌, Bool-cases, Option-cases, length, ==_iff,
}
use gpu_batch_crypto.Python.Values
use gpu_batch_crypto.Python.Values.{Value}
use gpu_batch_crypto.Jws.{is_low_s, scalar_r, scalar_s}
use gpu_batch_crypto.Verified.{
  Error, verification, Backend, Curve, Entry, Signer, close, fault, is_valid, all_valid,
  is_complete, release_batch, sign_entry, sign_live, check_sign, sign, find_entry,
}

module _ (curve : Curve) where
  -- The signature is canonical and valid for the digest under the key.
  pub record IsValid (encoded digest sig : Bytes) : Type 0 where
    pub size : length sig ≡ 64
    pub canonical : is_low_s sig ≡ true
    pub verified : curve.verify encoded (scalar_r sig) (scalar_s sig) digest ≡ true

  -- One valid signature for each digest, in their order.
  abbrev pub AllValid : Bytes → List Bytes → List Bytes → Type 0
  AllValid encoded [] [] = Unit
  AllValid encoded (d ∷ ds) (sig ∷ sigs) = IsValid encoded d sig × AllValid encoded ds sigs
  AllValid encoded [] (sig ∷ sigs) = ⊥
  AllValid encoded (d ∷ ds) [] = ⊥

  is_valid-IsValid :
      (encoded digest : Bytes) (v : Value)
      → is_valid curve encoded digest v ≡ true
      → (sig : Bytes) × (v ≡ Values.bytes sig) × IsValid encoded digest sig
  unfolding is_valid
  is_valid-IsValid encoded digest (Values.bytes sig) h = (
    sig,
    refl,
    record {
      size = (==_iff (length sig) 64).0 (ground (arith, h));
      canonical = ground (arith, h);
      verified = ground (arith, h);
    },
  )
  is_valid-IsValid encoded digest (Values.str t) h = absurd (ground (arith, h))
  is_valid-IsValid encoded digest (Values.int n) h = absurd (ground (arith, h))
  is_valid-IsValid encoded digest Values.other h = absurd (ground (arith, h))

  all_valid-AllValid :
      (encoded : Bytes) (digests : List Bytes) (vs : List Value)
      → all_valid curve encoded digests vs ≡ true
      → (sigs : List Bytes) × (vs ≡ map Values.bytes sigs) × AllValid encoded digests sigs
  unfolding all_valid
  all_valid-AllValid encoded [] [] h = ([], refl, tt)
  all_valid-AllValid encoded [] (v ∷ vs) h = absurd (ground (arith, h))
  all_valid-AllValid encoded (d ∷ ds) [] h = absurd (ground (arith, h))
  all_valid-AllValid encoded (d ∷ ds) (v ∷ vs) h =
      let (sig, is, valid) = is_valid-IsValid encoded d v (ground (arith, h)) in
      let (sigs, are, all) = all_valid-AllValid encoded ds vs (ground (arith, h)) in
      (sig ∷ sigs, cc (is, are), (valid, all))

  module _ {W : Type 0} (backend : Backend W) where
    -- A batch that was returned: the pinned key of the slot at that epoch, and the signatures.
    pub record Trusted (slot : ℕ) (digests : List Bytes) (epoch : ℕ) (s : Signer W)
        (returned : List Value) (s' : Signer W) : Type 0 where
      pub entry : Entry
      pub signatures : List Bytes
      pub open_before : s.closed ≡ false
      pub pinned : find_entry slot s.keys ≡ some entry
      pub at_epoch : entry.epoch ≡ epoch
      pub raw : returned ≡ map Values.bytes signatures
      pub valid : AllValid entry.encoded digests signatures
      pub keys_kept : s'.keys ≡ s.keys
      pub open_after : s'.closed ≡ false

    released :
        (encoded : Bytes) (digests : List Bytes) (epoch : ℕ) (r : Result Values.Error (List Value))
        (s : Signer W) {vs : List Value} {s' : Signer W}
        → release_batch curve backend encoded digests epoch r s ≡ (ok vs, s')
        → (all_valid curve encoded digests vs ≡ true) × (s' ≡ s)
    unfolding release_batch fault close
    released encoded digests epoch (err e) s h = absurd (ground (arith, h))
    released encoded digests epoch (ok sigs) s {vs} {s'} h =
        elim (Bool-cases (
          length sigs == length digests
          && is_complete (length digests) epoch (backend.last_report s.world)
          && all_valid curve encoded digests sigs)) [
            | inl t ↦
                let returned = kept h t in
                let same : sigs ≡ vs = ground (arith, returned) in
                (
                  rw (← same) (ground (arith, t)),
                  sym (ap (λ (x : Result Error (List Value) × Signer W). x.1) returned),
                )
            | inr t ↦ absurd (dropped h t)
          ]
      where
        kept :
            {b : Bool}
            → ◌≡◌ {A = Result Error (List Value) × Signer W}
                (if b then (ok sigs, s) else (err verification, close curve backend s))
                (ok vs, s')
            → b ≡ true
            → ◌≡◌ {A = Result Error (List Value) × Signer W} (ok sigs, s) (ok vs, s')
        kept {b} q t = (rw t at q)

        dropped :
            {b : Bool}
            → ◌≡◌ {A = Result Error (List Value) × Signer W}
                (if b then (ok sigs, s) else (err verification, close curve backend s))
                (ok vs, s')
            → b ≡ false
            → ⊥
        dropped {b} q t = ground (arith, q, t)

    sign_live-Trusted :
        (slot : ℕ) (digests : List Bytes) (epoch : ℕ) (s : Signer W) {vs : List Value}
        {s' : Signer W}
        → sign_live curve backend slot digests epoch s ≡ (ok vs, s')
        → Trusted slot digests epoch s vs s'
    unfolding sign_live sign_entry
    sign_live-Trusted slot digests epoch s {vs} {s'} h = elim (Bool-cases s.closed) [
      | inl t ↦ absurd (ground (arith, h, t))
      | inr live ↦ elim (Option-cases (find_entry slot s.keys)) [
        | inl missing ↦ absurd (ground (arith, h, live, missing))
        | inr (e, found) ↦ elim (Bool-cases (e.epoch == epoch)) [
          | inr other ↦ absurd (ground (arith, h, live, found, other))
          | inl same ↦
              let call = backend.sign slot digests epoch s.world in
              let before : Signer W = record s { world = call.1 } in
              let batch : release_batch curve backend e.encoded digests epoch call.0 before
                  ≡ (ok vs, s') =
                sym (reached e live found same) ∙ h in
              let (valid, unchanged) = released e.encoded digests epoch call.0 before batch in
              let (sigs, raw, all) = all_valid-AllValid e.encoded digests vs valid in
              record {
                entry = e;
                signatures = sigs;
                open_before = live;
                pinned = found;
                at_epoch = (==_iff e.epoch epoch).0 same;
                raw = raw;
                valid = all;
                keys_kept = ap (λ (x : Signer W). x.keys) unchanged;
                open_after = ap (λ (x : Signer W). x.closed) unchanged ∙ live;
              }
        ]
      ]
    ]
      where
        reached :
            (e : Entry)
            → s.closed ≡ false
            → find_entry slot s.keys ≡ some e
            → (e.epoch == epoch) ≡ true
            → sign_live curve backend slot digests epoch s
              ≡ release_batch curve backend e.encoded digests epoch
                  (backend.sign slot digests epoch s.world).0
                  (record s { world = (backend.sign slot digests epoch s.world).1 })
        reached e live found same = simp (live, found, same) refl

    -- A batch that `sign` returns, whatever the runtime did, has one signature of 64 bytes for each
    -- digest, in their order, canonical and valid for it under the public key that is pinned for
    -- the slot at the required epoch; the signer was open and is, and keeps its keys.
    pub sign-Trusted :
        (slot epoch : Value) (items : List Value) (s : Signer W) {n e : ℕ} {digests : List Bytes}
        {vs : List Value} {s' : Signer W}
        → check_sign curve backend slot items epoch ≡ ok (n, digests, e)
        → sign curve backend slot items epoch s ≡ (ok vs, s')
        → Trusted n digests e s vs s'
    unfolding sign
    sign-Trusted slot epoch items s {n} {e} {digests} {vs} {s'} c h =
        sign_live-Trusted n digests e s (reached ∙ h)
      where
        go :
            (r : Result Error (ℕ × List Bytes × ℕ))
            → r ≡ ok (n, digests, e)
            → sign_live curve backend n digests e s
              ≡ (elim r as (λ _. Result Error (List Value) × Signer W) [
                | err e ↦ (err e, s)
                | ok (n, ds, e) ↦ sign_live curve backend n ds e s
              ])
        go (ok x) q = ground (arith, q)
        go (err x) q = absurd (ground (arith, q))

        reached : sign_live curve backend n digests e s ≡ sign curve backend slot items epoch s
        reached = go (check_sign curve backend slot items epoch) c
