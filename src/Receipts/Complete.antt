-- ===== src/Receipts/Complete.antt =====
-- The paths that `_tree` makes, from leaf to root.
use gpu_batch_crypto.Prelude.{
  ℕ, zero, suc, ◌+◌, ◌-◌, ◌*◌, ◌/◌, ◌≤◌, ◌<◌, ◌≡◌, refl, sym, ap, ◌∙◌, ◌⊎◌, inl, inr, some, List,
  [], ◌∷◌, ◌++◌, Bytes, arith, ltb, ◌==◌, Bool-cases, length, get_elem?, length-append,
  append_assoc, append_nil,
}
use gpu_batch_crypto.Receipts.Tree.{
  bit_length_up, bit_length, split_size, Paths, append_range, leaf_hash, node_hash, build, climb,
}
use gpu_batch_crypto.Receipts.Climb.{
  pow2, pow2-positive, climb-high, climb-full, climb-append, climb-nil, climb-one_left,
  climb-one_right,
}

bit_length_up_zero : (fuel : ℕ) → bit_length_up fuel 0 ≡ 0
bit_length_up_zero zero = refl
bit_length_up_zero (suc fuel) = refl

bit_length_up-bounds :
    (fuel n : ℕ)
    → 1 ≤ n
    → n ≤ fuel
    → (b : ℕ) × (bit_length_up fuel n ≡ suc b) × (pow2 b ≤ n) × (n < 2 * pow2 b)
bit_length_up-bounds zero n p h = absurd (omega (arith, p, h))
bit_length_up-bounds (suc fuel) n p h = elim (Bool-cases (n == 1)) [
  | inl one ↦
      let is_one : n ≡ 1 = ground (arith, one) in
      (0, rw is_one (ap suc (bit_length_up_zero fuel)), ground (arith, one), ground (arith, one))
  | inr more ↦
      let (b, e, lo, hi) =
        bit_length_up-bounds fuel (n / 2) (ground (arith, p, more)) (omega (arith, p, h)) in
      (suc b, ground (arith, e, p), omega (arith, lo), omega (arith, hi))
]

-- The split of a size is a power of two below it, and at least half of it.
split_size-bounds :
    (size : ℕ)
    → 2 ≤ size
    → (e : ℕ) × (split_size size ≡ pow2 e) × (pow2 e ≤ size - 1) × (size - 1 < 2 * pow2 e)
split_size-bounds size h =
    let (b, e, lo, hi) =
      bit_length_up-bounds (size - 1) (size - 1) (omega (arith, h)) (omega arith) in
    let same : bit_length (size - 1) - 1 ≡ b = omega (arith, e) in (b, ap pow2 same, lo, hi)

pow2-le : (k e : ℕ) → pow2 k < 2 * pow2 e → pow2 k ≤ pow2 e
pow2-le zero e h = pow2-positive e
pow2-le (suc k) zero h = absurd (omega (arith, h, pow2-positive k))
pow2-le (suc k) (suc e) h = omega (arith, pow2-le k e (omega (arith, h)))

append_range-in :
    (at lo hi : ℕ) (node : Bytes) (paths : Paths) (j : ℕ) {path : List Bytes}
    → lo ≤ at + j
    → at + j < hi
    → get_elem? paths j ≡ some path
    → get_elem? (append_range at lo hi node paths) j ≡ some (path ++ node ∷ [])
unfolding append_range
append_range-in at lo hi node [] j l u h = cc
append_range-in at lo hi node (path ∷ paths) zero l u h = ground (arith, l, u, h)
append_range-in at lo hi node (path ∷ paths) (suc j) l u h =
    append_range-in (suc at) lo hi node paths j (omega (arith, l)) (omega (arith, u)) h

append_range-out :
    (at lo hi : ℕ) (node : Bytes) (paths : Paths) (j : ℕ)
    → (at + j < lo) ⊎ (hi ≤ at + j)
    → get_elem? (append_range at lo hi node paths) j ≡ get_elem? paths j
unfolding append_range
append_range-out at lo hi node [] j o = refl
append_range-out at lo hi node (path ∷ paths) zero o = ground (arith, o)
append_range-out at lo hi node (path ∷ paths) (suc j) o =
    append_range-out (suc at) lo hi node paths j (omega (arith, o))

get_elem?-some :
    {A : Type 0} (xs : List A) (i : ℕ) → i < length xs → (x : A) × (get_elem? xs i ≡ some x)
get_elem?-some [] i h = absurd (omega (arith, h))
get_elem?-some (x ∷ xs) zero h = (x, refl)
get_elem?-some (x ∷ xs) (suc i) h = get_elem?-some xs i (omega (arith, h))

module _ (sha256 : Bytes → Bytes) (records : List Bytes) where
  -- The path that a subtree appends for its j-th record leads from the leaf to the root of the
  -- subtree, and is no longer than the depth.
  pub record Leads (root : Bytes) (size j : ℕ) (value : Bytes) (path : List Bytes) : Type 0 where
    pub reaches : climb sha256 j (size - 1) value path ≡ some (0, 0, root)
    pub short : (e : ℕ) → size ≤ pow2 e → length path ≤ e

  -- What `build(start, size)` makes of the paths.
  pub record Built (start size : ℕ) (paths : Paths) (root : Bytes) (paths' : Paths) : Type 0 where
    pub inside :
        (j : ℕ) (r : Bytes) (base : List Bytes)
        → j < size
        → get_elem? records (start + j) ≡ some r
        → get_elem? paths (start + j) ≡ some base
        → (path : List Bytes) × (get_elem? paths' (start + j) ≡ some (base ++ path))
          × Leads root size j (leaf_hash sha256 r) path
    pub outside :
        (j : ℕ) → (j < start) ⊎ (start + size ≤ j) → get_elem? paths' j ≡ get_elem? paths j

  Built-leaf :
      (start : ℕ) (r : Bytes) (paths : Paths)
      → get_elem? records start ≡ some r
      → Built start 1 paths (leaf_hash sha256 r) paths
  Built-leaf start r paths e = record {
    inside = λ j r' base l e' eb.
        let first : j ≡ 0 = omega (arith, l) in
        let here : start + j ≡ start = omega (arith, l) in
        let found : get_elem? records start ≡ some r' = (rw here at e') in
        let same : r' ≡ r = ground (arith, sym found ∙ e) in
        (
          [],
          eb ∙ ap some (sym (append_nil base)),
          record {
            reaches = simp (first, same) (climb-nil sha256 0 0 (leaf_hash sha256 r));
            short = λ e _. omega arith;
          },
        );
    outside = λ j o. refl;
  }

  -- One more sibling, one more level.
  deeper :
      (size d part : ℕ) (path : List Bytes) (sibling : Bytes)
      → 2 ≤ size
      → size ≤ pow2 d
      → (k : ℕ) × (pow2 k ≤ size - 1) × (part ≤ pow2 k)
      → ((e : ℕ) → part ≤ pow2 e → length path ≤ e)
      → length (path ++ sibling ∷ []) ≤ d
  deeper size zero part path sibling two le k short = absurd (omega (arith, two, le))
  deeper size (suc d) part path sibling two le (k, lo, hi) short = omega (
    arith,
    length-append path (sibling ∷ []),
    short d (omega (arith, hi, pow2-le k d (omega (arith, lo, le, two)))),
  )

  module _ (start size : ℕ) (two : 2 ≤ size) (paths paths1 paths2 : Paths) (l r : Bytes)
      (left : Built start (split_size size) paths l paths1)
      (right : Built (start + split_size size) (size - split_size size) paths1 r paths2) where
    abbrev joined : Paths
    joined =
        append_range 0 (start + split_size size) (start + size) l
          (append_range 0 start (start + split_size size) r paths2)

    built_left :
        (j : ℕ) (x : Bytes) (base : List Bytes)
        → j < split_size size
        → get_elem? records (start + j) ≡ some x
        → get_elem? paths (start + j) ≡ some base
        → (path : List Bytes) × (get_elem? joined (start + j) ≡ some (base ++ path))
          × Leads (node_hash sha256 l r) size j (leaf_hash sha256 x) path
    built_left j x base lt ex eb =
        let (e, split, lo, hi) = split_size-bounds size two in
        let (path, there, leads) = left.inside j x base lt ex eb in
        let kept = right.outside (start + j) (omega (arith, lt)) ∙ there in
        let added =
          append_range-in 0 start (start + split_size size) r paths2 (start + j) (omega arith)
            (omega (arith, lt)) kept in
        let unchanged =
          append_range-out 0 (start + split_size size) (start + size) l _ (start + j)
            (omega (arith, lt)) in
        let inner : climb sha256 j (pow2 e - 1) (leaf_hash sha256 x) path ≡ some (0, 0, l) =
          (rw split at leads.reaches) in
        let outer =
          climb-full sha256 e j (size - 1) (leaf_hash sha256 x) path (omega (arith, lt, split)) lo
            hi inner in
        (
          path ++ r ∷ [],
          unchanged ∙ added ∙ ap some (append_assoc base path (r ∷ [])),
          record {
            reaches =
                climb-append sha256 j (size - 1) (leaf_hash sha256 x) path (r ∷ []) outer
                ∙ climb-one_right sha256 l r;
            short = λ d le.
                deeper size d (split_size size) path r two le (e, lo, omega (arith, split))
                  leads.short;
          },
        )

    built_right :
        (j : ℕ) (x : Bytes) (base : List Bytes)
        → split_size size ≤ j
        → j < size
        → get_elem? records (start + j) ≡ some x
        → get_elem? paths (start + j) ≡ some base
        → (path : List Bytes) × (get_elem? joined (start + j) ≡ some (base ++ path))
          × Leads (node_hash sha256 l r) size j (leaf_hash sha256 x) path
    built_right j x base ge lt ex eb =
        let (e, split, lo, hi) = split_size-bounds size two in
        let i = j - split_size size in
        let pos : start + j ≡ start + split_size size + i = omega (arith, ge) in
        let before = left.outside (start + j) (omega (arith, ge)) ∙ eb in
        let (path, there, leads) =
          right.inside i x base (omega (arith, ge, lt)) (rw pos at ex) (rw pos at before) in
        let there' : get_elem? paths2 (start + j) ≡ some (base ++ path) = rw pos there in
        let unchanged =
          append_range-out 0 start (start + split_size size) r paths2 (start + j)
            (omega (arith, ge)) in
        let added =
          append_range-in 0 (start + split_size size) (start + size) l _ (start + j)
            (omega (arith, ge)) (omega (arith, lt)) (unchanged ∙ there') in
        let (e', high) =
          climb-high sha256 e i (size - split_size size - 1) (leaf_hash sha256 x) path
            (omega (arith, ge, lt)) (omega (arith, hi, split, two)) leads.reaches in
        let position : i + pow2 e ≡ j = omega (arith, split, ge) in
        let last : size - split_size size - 1 + pow2 e ≡ size - 1 = omega (arith, split, lo, two) in
        let outer : climb sha256 j (size - 1) (leaf_hash sha256 x) path
            ≡ some (pow2 e', pow2 e', r) =
          (rw (position, last) at high) in
        (
          path ++ l ∷ [],
          added ∙ ap some (append_assoc base path (l ∷ [])),
          record {
            reaches =
                climb-append sha256 j (size - 1) (leaf_hash sha256 x) path (l ∷ []) outer
                ∙ climb-one_left sha256 e' r l;
            short = λ d le.
                deeper size d (size - split_size size) path l two le
                  (e, lo, omega (arith, split, hi, two)) leads.short;
          },
        )

    built_outside :
        (j : ℕ) → (j < start) ⊎ (start + size ≤ j) → get_elem? joined j ≡ get_elem? paths j
    built_outside j o =
        let (e, split, lo, hi) = split_size-bounds size two in
        append_range-out 0 (start + split_size size) (start + size) l _ j
          (omega (arith, o, split, lo, two))
        ∙ append_range-out 0 start (start + split_size size) r paths2 j
            (omega (arith, o, split, lo, two))
        ∙ right.outside j (omega (arith, o, split, lo, two))
        ∙ left.outside j (omega (arith, o, split, lo, two))

    Built-node : Built start size paths (node_hash sha256 l r) joined
    Built-node = record {
      inside = λ j x base lt ex eb. elim (Bool-cases (ltb j (split_size size))) [
        | inl in_left ↦ built_left j x base (ground (arith, in_left)) ex eb
        | inr in_right ↦ built_right j x base (ground (arith, in_right)) lt ex eb
      ];
      outside = built_outside;
    }

  -- `build(start, size)` returns, and makes the paths of its range.
  pub build-Built :
      (fuel start size : ℕ) (paths : Paths)
      → 1 ≤ size
      → size ≤ fuel
      → start + size ≤ length records
      → (root : Bytes) × (paths' : Paths) × (build sha256 fuel records start size paths
          ≡ some (root, paths'))
        × Built start size paths root paths'
  unfolding build
  build-Built zero start size paths p f b = absurd (omega (arith, p, f))
  build-Built (suc fuel) start size paths p f b = elim (Bool-cases (size == 1)) [
    | inl one ↦
        let is_one : size ≡ 1 = ground (arith, one) in
        let (r, e) = get_elem?-some records start (omega (arith, is_one, b)) in
        (leaf_hash sha256 r, paths, ground (arith, one, e), rw is_one (Built-leaf start r paths e))
    | inr more ↦
        let two : 2 ≤ size = ground (arith, more, p) in
        let split = split_size size in
        let (e, is_pow, lo, hi) = split_size-bounds size two in
        let (l, paths1, el, left) =
          build-Built fuel start split paths (omega (arith, is_pow, pow2-positive e))
            (omega (arith, is_pow, lo, f, two)) (omega (arith, is_pow, lo, b)) in
        let (r, paths2, er, right) =
          build-Built fuel (start + split) (size - split) paths1 (omega (arith, is_pow, lo, two))
            (omega (arith, is_pow, pow2-positive e, f)) (omega (arith, is_pow, lo, b)) in
        (
          node_hash sha256 l r,
          joined start size two paths paths1 paths2 l r left right,
          ground (arith, more, el, er),
          Built-node start size two paths paths1 paths2 l r left right,
        )
  ]
