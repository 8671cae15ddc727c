-- ===== src/Sql/Laws.antt =====
-- Laws of the table statements: what a sum, a key and a property of the rows become under them.
use gpu_batch_crypto.Prelude.{
  ℕ, ◌+◌, ◌≤◌, ◌≡◌, refl, inl, inr, Bool, true, false, none, some, List, [], ◌∷◌, ◌++◌,
  if◌then◌else◌, arith, any, All, Bool-cases,
}
use gpu_batch_crypto.Sql.{select_first, select_sum}

-- At most one row satisfies the test.
abbrev pub Single {ℓ} : {A : Type ℓ} → (A → Bool) → List A → Type 0
Single p [] = Unit
Single p (x ∷ xs) = (p x ≡ true → any p xs ≡ false) × Single p xs

module _ {ℓ} {A : Type ℓ} where
  pub select-holds : (p : A → Bool) (xs : List A) {x : A} → select_first p xs ≡ some x → p x ≡ true
  unfolding select_first
  select-holds p [] h = cc
  select-holds p (y ∷ xs) h = elim (Bool-cases (p y)) [
    | inl e ↦ let s = (rw e at h) in ground arith
    | inr e ↦ select-holds p xs (rw e at h)
  ]

  pub any-select_none : (p : A → Bool) (xs : List A) → select_first p xs ≡ none → any p xs ≡ false
  unfolding select_first
  any-select_none p [] h = refl
  any-select_none p (y ∷ xs) h = ground (arith, any-select_none p xs)

  pub All-select {κ} :
      (P : A → Type κ) (p : A → Bool) (xs : List A) {x : A}
      → All P xs
      → select_first p xs ≡ some x
      → P x
  unfolding select_first
  All-select P p [] h e = cc
  All-select P p (y ∷ xs) {x} h e = elim (Bool-cases (p y)) [
    | inl t ↦ let s : some y ≡ some x = (rw t at e) in let q : y ≡ x = cc in rw (← q) (h.0)
    | inr t ↦ All-select P p xs h.1 (rw t at e)
  ]

  pub select-append_old :
      (p : A → Bool) (xs ys : List A) {x : A}
      → select_first p xs ≡ some x
      → select_first p (xs ++ ys) ≡ some x
  unfolding select_first
  select-append_old p [] ys h = cc
  select-append_old p (y ∷ xs) ys {x} h = ground (arith, select-append_old p xs ys {x = x})

  pub select-append_new :
      (p : A → Bool) (xs : List A) (x : A)
      → select_first p xs ≡ none
      → select_first p (xs ++ x ∷ []) ≡ (if p x then some x else none)
  unfolding select_first
  select-append_new p [] x h = refl
  select-append_new p (y ∷ xs) x h = ground (arith, select-append_new p xs x)

  pub any-append :
      (p : A → Bool) (xs ys : List A) → any p (xs ++ ys) ≡ (if any p xs then true else any p ys)
  any-append p [] ys = refl
  any-append p (y ∷ xs) ys = ground (arith, any-append p xs ys)

  pub select_sum-append :
      (p : A → Bool) (f : A → ℕ) (xs ys : List A)
      → select_sum p f (xs ++ ys) ≡ select_sum p f xs + select_sum p f ys
  unfolding select_sum
  select_sum-append p f [] ys = omega arith
  select_sum-append p f (x ∷ xs) ys = omega (arith, select_sum-append p f xs ys)

  pub select_sum_none :
      (p : A → Bool) (f : A → ℕ) (xs : List A) → any p xs ≡ false → select_sum p f xs ≡ 0
  unfolding select_sum
  select_sum_none p f [] h = refl
  select_sum_none p f (x ∷ xs) h = ground (arith, select_sum_none p f xs)

  pub le-select_sum :
      (p q : A → Bool) (f : A → ℕ) (xs : List A) {x : A}
      → select_first p xs ≡ some x
      → q x ≡ true
      → f x ≤ select_sum q f xs
  unfolding select_first select_sum
  le-select_sum p q f [] h t = cc
  le-select_sum p q f (y ∷ xs) {x} h t = ground (arith, le-select_sum p q f xs {x = x})

  pub Single-append :
      (p : A → Bool) (xs : List A) (x : A)
      → Single p xs
      → (p x ≡ true → any p xs ≡ false)
      → Single p (xs ++ x ∷ [])
  Single-append p [] x s h = (λ _. refl, tt)
  Single-append p (y ∷ xs) x s h = (
    λ t. ground (arith, any-append p xs (x ∷ []), s.0 t, h),
    Single-append p xs x s.1 (λ t. ground (arith, h t)),
  )

  pub any-select_some :
      (p q : A → Bool) (xs : List A) {x : A}
      → select_first p xs ≡ some x
      → q x ≡ true
      → any q xs ≡ true
  unfolding select_first
  any-select_some p q [] h t = cc
  any-select_some p q (y ∷ xs) {x} h t = ground (arith, any-select_some p q xs {x = x})

  -- Of a test that one row at most satisfies, a stronger test finds the same row.
  pub select-weaken :
      (p q : A → Bool) (xs : List A) {x : A}
      → Single p xs
      → ((x : A) → q x ≡ true → p x ≡ true)
      → select_first q xs ≡ some x
      → select_first p xs ≡ some x
  unfolding select_first
  select-weaken p q [] s w h = cc
  select-weaken p q (y ∷ xs) {x} s w h = elim (Bool-cases (q y)) [
    | inl t ↦ ground (arith, w y t, t)
    | inr t ↦
        let found : select_first q xs ≡ some x = (rw t at h) in
        ground (
          arith,
          s.0,
          any-select_some q p xs found (w x (select-holds q xs found)),
          select-weaken p q xs s.1 w found,
          t,
        )
  ]
