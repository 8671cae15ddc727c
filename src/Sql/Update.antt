-- ===== src/Sql/Update.antt =====
-- Laws of `UPDATE t SET ... WHERE p`.
use gpu_batch_crypto.Prelude.{
  ℕ, ◌+◌, ◌≡◌, refl, sym, ◌∙◌, inl, inr, Bool, true, false, Option, none, some, List, [], ◌∷◌,
  if◌then◌else◌, arith, any, All, Bool-cases,
}
use gpu_batch_crypto.Sql.{select_first, select_sum, put_row, update_where}
use gpu_batch_crypto.Sql.Laws.{Single}

module _ {ℓ} {A : Type ℓ} where
  put_row-eq-some :
      (o : Option A) (r : Option (List A)) {ys : List A}
      → put_row o r ≡ some ys
      → (y : A) × (zs : List A) × (o ≡ some y) × (r ≡ some zs) × (ys ≡ y ∷ zs)
  put_row-eq-some (some y) (some zs) h = (y, zs, refl, refl, cc)
  put_row-eq-some (some y) none h = cc
  put_row-eq-some none r h = cc

  -- What the statement does to the first row and to the rest.
  pub update-cons :
      (p : A → Bool) (g : A → Option A) (x : A) (xs : List A) {ys : List A}
      → update_where p g (x ∷ xs) ≡ some ys
      → (y : A) × (zs : List A) × ((if p x then g x else some x) ≡ some y)
        × (update_where p g xs ≡ some zs)
        × (ys ≡ y ∷ zs)
  unfolding update_where
  update-cons p g x xs h = put_row-eq-some (if p x then g x else some x) (update_where p g xs) h

  -- A property of the rows after the statement, from one of the rows before it.
  pub All-update {κ μ} :
      (P : A → Type κ) (Q : A → Type μ) (p : A → Bool) (g : A → Option A) (xs : List A)
      {ys : List A}
      → ((x : A) → p x ≡ false → P x → Q x)
      → ((x y : A) → p x ≡ true → g x ≡ some y → P x → Q y)
      → All P xs
      → update_where p g xs ≡ some ys
      → All Q ys
  unfolding update_where
  All-update P Q p g [] {ys} keep move h e = let q : [] ≡ ys = cc in rw (← q) tt
  All-update P Q p g (x ∷ xs) {ys} keep move h e =
      let (y, zs, step, rest, whole) = update-cons p g x xs e in
      let tail : All Q zs = All-update P Q p g xs keep move h.1 rest in
      let head : Q y = elim (Bool-cases (p x)) [
        | inl t ↦ move x y t (rw t at step) h.0
        | inr t ↦
            let s : some x ≡ some y = (rw t at step) in
            let q : x ≡ y = cc in rw (← q) (keep x t h.0)
      ] in
      rw whole (head, tail)

  -- A test that the assignment does not touch.
  pub any-update :
      (q p : A → Bool) (g : A → Option A) (xs : List A) {ys : List A}
      → ((x y : A) → g x ≡ some y → q y ≡ q x)
      → update_where p g xs ≡ some ys
      → any q ys ≡ any q xs
  unfolding update_where
  any-update q p g [] {ys} same e = let r : [] ≡ ys = cc in rw (← r)
  any-update q p g (x ∷ xs) {ys} same e =
      let (y, zs, step, rest, whole) = update-cons p g x xs e in
      rw whole (ground (arith, same x y, any-update q p g xs same rest, step))

  pub Single-update :
      (q p : A → Bool) (g : A → Option A) (xs : List A) {ys : List A}
      → ((x y : A) → g x ≡ some y → q y ≡ q x)
      → Single q xs
      → update_where p g xs ≡ some ys
      → Single q ys
  unfolding update_where
  Single-update q p g [] {ys} same s e = let r : [] ≡ ys = cc in rw (← r) tt
  Single-update q p g (x ∷ xs) {ys} same s e =
      let (y, zs, step, rest, whole) = update-cons p g x xs e in
      let here : q y ≡ q x = ground (arith, same x y, step) in
      rw whole (
        λ t. any-update q p g xs same rest ∙ s.0 (sym here ∙ t),
        Single-update q p g xs same s.1 rest,
      )

  -- A row that the statement is about, found afterwards by a test that it does not touch.
  pub select-update :
      (q p : A → Bool) (g : A → Option A) (xs : List A) {ys : List A} {x y : A}
      → ((x y : A) → g x ≡ some y → q y ≡ q x)
      → select_first q xs ≡ some x
      → p x ≡ true
      → g x ≡ some y
      → update_where p g xs ≡ some ys
      → select_first q ys ≡ some y
  unfolding update_where select_first
  select-update q p g [] same s t m e = cc
  select-update q p g (z ∷ xs) {ys} {x} {y} same s t m e =
      let (w, zs, step, rest, whole) = update-cons p g z xs e in
      rw whole (elim (Bool-cases (q z)) [
        | inl here ↦ ground (arith, same z w, step, here, t, m)
        | inr there ↦ ground (
          arith,
          same z w,
          step,
          there,
          select-update q p g xs {x = x} {y = y} same (rw there at s) t m rest,
        )
      ])

  pub select-update_none :
      (p q : A → Bool) (g : A → Option A) (xs : List A) {ys : List A}
      → ((x y : A) → g x ≡ some y → q y ≡ q x)
      → select_first q xs ≡ none
      → update_where p g xs ≡ some ys
      → select_first q ys ≡ none
  unfolding update_where select_first
  select-update_none p q g [] {ys} same s e = let r : [] ≡ ys = cc in rw (← r)
  select-update_none p q g (z ∷ xs) {ys} same s e =
      let (w, zs, step, rest, whole) = update-cons p g z xs e in
      rw whole (
        ground (
          arith,
          same z w,
          step,
          λ (h : select_first q xs ≡ none). select-update_none p q g xs same h rest,
        ))

  -- No row, no change.
  pub update_none :
      (p : A → Bool) (g : A → Option A) (xs : List A)
      → any p xs ≡ false
      → update_where p g xs ≡ some xs
  unfolding update_where
  update_none p g [] h = refl
  update_none p g (x ∷ xs) h = ground (arith, update_none p g xs)

  -- A sum over the rows, where the statement is about one row.
  pub select_sum-update :
      (q p : A → Bool) (f : A → ℕ) (g : A → Option A) (xs : List A) {ys : List A} {x y : A}
      → Single p xs
      → select_first p xs ≡ some x
      → g x ≡ some y
      → update_where p g xs ≡ some ys
      → select_sum q f ys + (if q x then f x else 0) ≡ select_sum q f xs + (if q y then f y else 0)
  unfolding update_where select_first select_sum
  select_sum-update q p f g [] s e m u = cc
  select_sum-update q p f g (z ∷ xs) {ys} {x} {y} s e m u =
      let (w, zs, step, rest, whole) = update-cons p g z xs u in
      rw whole (elim (Bool-cases (p z)) [
        | inl t ↦ ground (arith, step, m, update_none p g xs (s.0 t), rest)
        | inr t ↦ ground (
          arith,
          step,
          select_sum-update q p f g xs {ys = zs} {x = x} {y = y} s.1 (rw t at e) m rest,
        )
      ])

  -- The statement goes through where no row fails its CHECK.
  pub update-total {κ} :
      (P : A → Type κ) (p : A → Bool) (g : A → Option A) (xs : List A)
      → ((x : A) → P x → p x ≡ true → (y : A) × (g x ≡ some y))
      → All P xs
      → (ys : List A) × (update_where p g xs ≡ some ys)
  unfolding update_where
  update-total P p g [] pass h = ([], refl)
  update-total P p g (x ∷ xs) pass h =
      let (zs, rest) = update-total P p g xs pass h.1 in
      elim (Bool-cases (p x)) [
        | inl t ↦ let (y, m) = pass x h.0 t in (y ∷ zs, rw (t, m, rest))
        | inr t ↦ (x ∷ zs, rw (t, rest))
      ]

  -- The statement goes through if the CHECK holds of its only row.
  pub update-Single-total :
      (p : A → Bool) (g : A → Option A) (xs : List A) {x y : A}
      → Single p xs
      → select_first p xs ≡ some x
      → g x ≡ some y
      → (ys : List A) × (update_where p g xs ≡ some ys)
  unfolding update_where select_first
  update-Single-total p g [] s e m = cc
  update-Single-total p g (z ∷ xs) {x} {y} s e m = elim (Bool-cases (p z)) [
    | inl t ↦ (y ∷ xs, ground (arith, update_none p g xs (s.0 t), t, m))
    | inr t ↦
        let (ys, rest) = update-Single-total p g xs {x = x} {y = y} s.1 (rw t at e) m in
        (z ∷ ys, rw (t, rest))
  ]

  -- A sum that the assignment does not touch.
  pub select_sum-update_same :
      (q p : A → Bool) (f : A → ℕ) (g : A → Option A) (xs : List A) {ys : List A}
      → ((x y : A) → g x ≡ some y → (if q y then f y else 0) ≡ (if q x then f x else 0))
      → update_where p g xs ≡ some ys
      → select_sum q f ys ≡ select_sum q f xs
  unfolding update_where select_sum
  select_sum-update_same q p f g [] {ys} same u = let r : [] ≡ ys = cc in rw (← r)
  select_sum-update_same q p f g (z ∷ xs) {ys} same u =
      let (w, zs, step, rest, whole) = update-cons p g z xs u in
      rw whole (ground (arith, same z w, step, select_sum-update_same q p f g xs same rest))
