-- ===== src/Sql/Narrow.antt =====
-- `UPDATE t SET ... WHERE p` where p is stronger than a test that one row at most satisfies.
use gpu_batch_crypto.Prelude.{
  ◌≡◌, refl, inl, inr, Bool, true, false, Option, some, List, [], ◌∷◌, arith, any, Bool-cases,
  Option-cases, ◌==◌,
}
use gpu_batch_crypto.Sql.{select_first, select_sum, update_where}
use gpu_batch_crypto.Sql.Laws.{Single, select_sum_none}
use gpu_batch_crypto.Sql.Update.{update_none, update-cons}

module _ {ℓ} {A : Type ℓ} (p q : A → Bool) (stronger : (x : A) → p x ≡ true → q x ≡ true) where
  -- A row that satisfies p satisfies q.
  pub any_weaken : (xs : List A) → any p xs ≡ true → any q xs ≡ true
  any_weaken [] h = cc
  any_weaken (x ∷ xs) h = ground (arith, stronger x, any_weaken xs)

  -- Where no row satisfies q, none satisfies p.
  any_stronger : (xs : List A) → any q xs ≡ false → any p xs ≡ false
  any_stronger [] h = refl
  any_stronger (x ∷ xs) h = ground (arith, stronger x, any_stronger xs)

  -- The row that p finds is the one that q finds.
  pub update_narrow :
      (g : A → Option A) (xs : List A)
      → Single q xs
      → any p xs ≡ true
      → update_where p g xs ≡ update_where q g xs
  unfolding update_where
  update_narrow g [] s h = cc
  update_narrow g (x ∷ xs) s h = elim (Bool-cases (p x)) [
    | inl t ↦ ground (
      arith,
      t,
      stronger x t,
      s.0,
      update_none q g xs (s.0 (stronger x t)),
      update_none p g xs (any_stronger xs (s.0 (stronger x t))),
    )
    | inr t ↦
        let found : any p xs ≡ true = ground (arith, t) in
        ground (arith, t, s.0, any_stronger xs, found, update_narrow g xs s.1 found)
  ]

module _ {ℓ} {A : Type ℓ} (p : A → Bool) where
  -- A statement that is about a row finds one.
  pub any-select_sum : (xs : List A) → (select_sum p (λ _. 1) xs == 1) ≡ true → any p xs ≡ true
  unfolding select_sum
  any-select_sum [] h = cc
  any-select_sum (x ∷ xs) h = elim (Bool-cases (any p xs)) [
    | inl t ↦ ground (arith, t)
    | inr t ↦ ground (arith, t, select_sum_none p (λ _. 1) xs t)
  ]

  -- The first row that satisfies the test, if any does.
  pub select-any : (xs : List A) → any p xs ≡ true → (x : A) × (select_first p xs ≡ some x)
  unfolding select_first
  select-any [] h = cc
  select-any (x ∷ xs) h = elim (Bool-cases (p x)) [
    | inl t ↦ (x, rw t)
    | inr t ↦ let (y, e) = select-any xs (ground (arith, t)) in (y, rw t e)
  ]

  -- The statement went through, so the row that it found passed.
  pub update-some :
      (g : A → Option A) (xs : List A) {x : A} {ys : List A}
      → select_first p xs ≡ some x
      → update_where p g xs ≡ some ys
      → (y : A) × (g x ≡ some y)
  unfolding select_first update_where
  update-some g [] e u = cc
  update-some g (z ∷ xs) {x} {ys} e u = elim (Bool-cases (p z)) [
    | inl t ↦
        let same : z ≡ x = ground (arith, t) in
        elim (Option-cases (g z)) [
          | inl f ↦ absurd (ground (arith, t, f))
          | inr (y, f) ↦ (y, ground (arith, same, f))
        ]
    | inr t ↦ elim (Option-cases (update_where p g xs)) [
      | inl f ↦ absurd (ground (arith, t, f))
      | inr (zs, f) ↦ update-some g xs (rw t at e) f
    ]
  ]

-- A row that the statement is not about is found as before.
pub select-update_other {ℓ} :
    {A : Type ℓ} (q p : A → Bool) (g : A → Option A) (xs : List A) {ys : List A}
    → ((x : A) → p x ≡ true → q x ≡ false)
    → ((x y : A) → p x ≡ true → g x ≡ some y → q y ≡ false)
    → update_where p g xs ≡ some ys
    → select_first q ys ≡ select_first q xs
unfolding update_where select_first
select-update_other q p g [] before after u = cc
select-update_other q p g (x ∷ xs) {ys} before after u =
    let (y, zs, step, rest, whole) = update-cons p g x xs u in
    rw whole (elim (Bool-cases (p x)) [
      | inl t ↦ ground (
        arith,
        t,
        before x t,
        after x y t (rw t at step),
        select-update_other q p g xs before after rest,
      )
      | inr t ↦
          let s : some x ≡ some y = (rw t at step) in
          let same : x ≡ y = cc in
          ground (arith, same, select-update_other q p g xs before after rest)
    ])
