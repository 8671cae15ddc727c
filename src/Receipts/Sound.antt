-- ===== src/Receipts/Sound.antt =====
-- `_included` (python/batchcrypto/receipts.py) against a root that `_tree` made.
use gpu_batch_crypto.Prelude.{
  ℕ, ◌+◌, ◌-◌, ◌/◌, ◌≤◌, ◌≡◌, refl, sym, ap, ◌∙◌, ◌⊎◌, inl, inr, true, false, some, List, [], ◌∷◌,
  ◌++◌, Bytes, arith, Bool-cases, Option-cases, length, get_elem?, length-append, text_eq,
  text_eq_sound,
}
use gpu_batch_crypto.Receipts.Tree.{
  Paths, leaf_hash, node_hash, tree, strip, climb, is_root, included,
}
use gpu_batch_crypto.Receipts.Climb.{
  climb-nil, climb-next, climb-positive, step-left, step-right, climb_on, turns,
}
use gpu_batch_crypto.Receipts.Included.{get_elem?-lt, Proven, tree_all-Proven}

-- Different texts with one hash.
pub record Collision (sha256 : Bytes → Bytes) : Type 0 where
  pub first : Bytes
  pub second : Bytes
  pub differ : text_eq first second ≡ false
  pub same_hash : sha256 first ≡ sha256 second

append-cancel_right : (xs ys zs ws : Bytes) → length xs ≡ length zs → xs ++ ys ≡ zs ++ ws → ys ≡ ws
append-cancel_right [] ys [] ws l h = h
append-cancel_right [] ys (z ∷ zs) ws l h = absurd (omega (arith, l))
append-cancel_right (x ∷ xs) ys [] ws l h = absurd (omega (arith, l))
append-cancel_right (x ∷ xs) ys (z ∷ zs) ws l h =
    append-cancel_right xs ys zs ws (omega (arith, l)) (ground (arith, h))

append-cancel_left : (xs ys zs ws : Bytes) → length xs ≡ length zs → xs ++ ys ≡ zs ++ ws → xs ≡ zs
append-cancel_left [] ys [] ws l h = refl
append-cancel_left [] ys (z ∷ zs) ws l h = absurd (omega (arith, l))
append-cancel_left (x ∷ xs) ys [] ws l h = absurd (omega (arith, l))
append-cancel_left (x ∷ xs) ys (z ∷ zs) ws l h =
    ground (arith, h, append-cancel_left xs ys zs ws (omega (arith, l)))

module _ (sha256 : Bytes → Bytes) where
  -- Equal hashes are of equal texts, or are a collision.
  pub same_text : (x y : Bytes) → sha256 x ≡ sha256 y → (x ≡ y) ⊎ Collision sha256
  same_text x y h = elim (Bool-cases (text_eq x y)) [
    | inl t ↦ inl (text_eq_sound x y t)
    | inr f ↦ inr (record { first = x; second = y; differ = f; same_hash = h })
  ]

  same_left :
      (v w a b : Bytes)
      → length v ≡ length w
      → node_hash sha256 v a ≡ node_hash sha256 w b
      → (v ≡ w) ⊎ Collision sha256
  unfolding node_hash
  same_left v w a b l h = elim (same_text (1 ∷ v ++ a) (1 ∷ w ++ b) h) [
    | inl e ↦ inl (append-cancel_left v a w b l (ground (arith, e)))
    | inr c ↦ inr c
  ]

  same_right :
      (v w a b : Bytes)
      → length v ≡ length w
      → node_hash sha256 a v ≡ node_hash sha256 b w
      → (v ≡ w) ⊎ Collision sha256
  unfolding node_hash
  same_right v w a b l h = elim (same_text (1 ∷ a ++ v) (1 ∷ b ++ w) h) [
    | inl e ↦
        let whole : a ++ v ≡ b ++ w = ground (arith, e) in
        let count : length a + length v ≡ length b + length w =
          sym (length-append a v) ∙ ap length whole ∙ length-append b w in
        inl (append-cancel_right a v b w (omega (arith, count, l)) whole)
    | inr c ↦ inr c
  ]

  module _ (sized : (x : Bytes) → length (sha256 x) ≡ 32) where
    node_sized : (a b c d : Bytes) → length (node_hash sha256 a b) ≡ length (node_hash sha256 c d)
    unfolding node_hash
    node_sized a b c d = sized (1 ∷ a ++ b) ∙ sym (sized (1 ∷ c ++ d))

    -- Two climbs from one position to one root start from one value.
    climb_unique :
        (fn sn : ℕ) (v w : Bytes) (p q : List Bytes) {f g : ℕ} {root : Bytes}
        → length v ≡ length w
        → climb sha256 fn sn v p ≡ some (f, 0, root)
        → climb sha256 fn sn w q ≡ some (g, 0, root)
        → (v ≡ w) ⊎ Collision sha256
    climb_unique fn sn v w [] [] l h k =
        let a = sym (climb-nil sha256 fn sn v) ∙ h in
        let b = sym (climb-nil sha256 fn sn w) ∙ k in inl (ground (arith, a, b))
    climb_unique fn sn v w [] (b ∷ q) l h k =
        let a = sym (climb-nil sha256 fn sn v) ∙ h in
        absurd (ground (arith, a, climb-positive sha256 fn sn w b q k))
    climb_unique fn sn v w (a ∷ p) [] l h k =
        let b = sym (climb-nil sha256 fn sn w) ∙ k in
        absurd (ground (arith, b, climb-positive sha256 fn sn v a p h))
    climb_unique fn sn v w (a ∷ p) (b ∷ q) {f} {g} {root} l h k =
        let s = climb-positive sha256 fn sn v a p h in
        let next = sym (climb-next sha256 fn sn v a p s) ∙ h in
        let next' = sym (climb-next sha256 fn sn w b q s) ∙ k in
        elim (Bool-cases (turns sha256 fn sn)) [
          | inl t ↦
              let up = sym (ap (λ x. climb_on sha256 x p) (step-left sha256 fn sn v a t)) ∙ next in
              let up' =
                sym (ap (λ x. climb_on sha256 x q) (step-left sha256 fn sn w b t)) ∙ next' in
              elim (climb_unique ((strip fn fn sn).0 / 2) ((strip fn fn sn).1 / 2)
                (node_hash sha256 a v) (node_hash sha256 b w) p q (node_sized a v b w) up up') [
                  | inl e ↦ same_right v w a b l e
                  | inr c ↦ inr c
                ]
          | inr t ↦
              let up = sym (ap (λ x. climb_on sha256 x p) (step-right sha256 fn sn v a t)) ∙ next in
              let up' =
                sym (ap (λ x. climb_on sha256 x q) (step-right sha256 fn sn w b t)) ∙ next' in
              elim (climb_unique (fn / 2) (sn / 2) (node_hash sha256 v a) (node_hash sha256 w b) p q
                (node_sized v a w b) up up') [ inl e ↦ same_left v w a b l e | inr c ↦ inr c ]
        ]

    accepted-climb :
        (r : Bytes) (index size : ℕ) (path : List Bytes) (root : Bytes)
        → included sha256 r index size path root ≡ true
        → (f : ℕ) × (climb sha256 index (size - 1) (leaf_hash sha256 r) path ≡ some (f, 0, root))
    unfolding included is_root
    accepted-climb r index size path root h =
        elim (Option-cases (climb sha256 index (size - 1) (leaf_hash sha256 r) path)) [
          | inl e ↦ absurd (ground (arith, h, e))
          | inr ((f, s, v), e) ↦
              let zero_last : s ≡ 0 = ground (arith, h, e) in
              let same : v ≡ root = text_eq_sound v root (ground (arith, h, e)) in
              (f, e ∙ ground (arith, zero_last, same))
        ]

    same_leaf : (x r : Bytes) → leaf_hash sha256 x ≡ leaf_hash sha256 r → (x ≡ r) ⊎ Collision sha256
    unfolding leaf_hash
    same_leaf x r h = elim (same_text (0 ∷ x) (0 ∷ r) h) [
      | inl e ↦ inl (ground (arith, e))
      | inr c ↦ inr c
    ]

    leaf_sized : (x r : Bytes) → length (leaf_hash sha256 x) ≡ length (leaf_hash sha256 r)
    unfolding leaf_hash
    leaf_sized x r = sized (0 ∷ x) ∙ sym (sized (0 ∷ r))

    accepted-record :
        (records : List Bytes) (root : Bytes) (paths : Paths) (index : ℕ) (r x : Bytes)
        (path : List Bytes)
        → Proven sha256 records root paths index r
        → included sha256 x index (length records) path root ≡ true
        → (x ≡ r) ⊎ Collision sha256
    accepted-record records root paths index r x path proven h =
        let (f, e) = accepted-climb x index (length records) path root h in
        elim (climb_unique index (length records - 1) (leaf_hash sha256 x) (leaf_hash sha256 r) path
          proven.path (leaf_sized x r) e proven.reaches) [
            | inl same ↦ same_leaf x r same
            | inr c ↦ inr c
          ]

-- With a hash function of 32 bytes: what `_included` accepts at the index of a record, against the
-- root and the number of the records of a tree, with any path, is that very record, or two texts
-- of one hash are given.
pub included_sound :
    (sha256 : Bytes → Bytes)
    → ((x : Bytes) → length (sha256 x) ≡ 32)
    → (records : List Bytes) (root : Bytes) (paths : Paths)
    → tree sha256 records ≡ some (root, paths)
    → (index : ℕ) (r x : Bytes) (path : List Bytes) → get_elem? records index ≡ some r
    → included sha256 x index (length records) path root ≡ true
    → (x ≡ r) ⊎ Collision sha256
included_sound sha256 sized records root paths made index r x path found h =
    let some_record : 1 ≤ length records = omega (arith, get_elem?-lt records index found) in
    let (root', paths', made', all) = tree_all-Proven sha256 records some_record in
    let same : root' ≡ root = ground (arith, sym made' ∙ made) in
    accepted-record sha256 sized records root' paths' index r x path (all index r found) (rw same h)
