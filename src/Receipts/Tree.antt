-- ===== src/Receipts/Tree.antt =====
-- `_leaf`, `_node`, `_tree` and `_included` of python/batchcrypto/receipts.py.
use gpu_batch_crypto.Prelude.{
  ℕ, zero, suc, ◌+◌, ◌-◌, ◌*◌, ◌/◌, ◌%◌, Bool, false, ◌&&◌, ◌||◌, Option, none, some, List, [], ◌∷◌,
  ◌++◌, map, Bytes, text_eq, ltb, leb, ◌==◌, if◌then◌else◌, length, get_elem?,
}

-- n << k
abbrev pub shift_left : ℕ → ℕ → ℕ
shift_left n zero = n
shift_left n (suc k) = 2 * shift_left n k

abbrev pub bit_length_up : ℕ → ℕ → ℕ
bit_length_up zero n = 0
bit_length_up (suc fuel) n = let rest = bit_length_up fuel (n / 2) in if n == 0 then 0 else suc rest

-- n.bit_length(), the fuel being at least the number of bits.
abbrev pub bit_length : ℕ → ℕ
bit_length n = bit_length_up n n

-- The largest power of two strictly below the size.
abbrev pub split_size : ℕ → ℕ
split_size size = shift_left 1 (bit_length (size - 1) - 1)

abbrev pub is_odd : ℕ → Bool
is_odd n = n % 2 == 1

abbrev pub in_range : ℕ → ℕ → ℕ → Bool
in_range lo hi n = leb lo n && ltb n hi

abbrev pub Paths : Type 0
Paths = List (List Bytes)

-- for index in range(lo, hi): paths[index].append(node), where `at` is the index of the first.
unfoldable pub append_range : ℕ → ℕ → ℕ → Bytes → Paths → Paths
append_range at lo hi node [] = []
append_range at lo hi node (path ∷ paths) =
    (if in_range lo hi at then path ++ node ∷ [] else path) ∷ append_range (suc at) lo hi node paths

-- while fn and not fn & 1: fn >>= 1; sn >>= 1
unfoldable pub strip : ℕ → ℕ → ℕ → ℕ × ℕ
strip zero fn sn = (fn, sn)
strip (suc fuel) fn sn =
    let rest = strip fuel (fn / 2) (sn / 2) in if fn == 0 || is_odd fn then (fn, sn) else rest

module _ (sha256 : Bytes → Bytes) where
  unfoldable pub leaf_hash : Bytes → Bytes
  leaf_hash record_bytes = sha256 (0 ∷ record_bytes)

  unfoldable pub node_hash : Bytes → Bytes → Bytes
  node_hash left right = sha256 (1 ∷ left ++ right)

  leaf_at : Option Bytes → Paths → Option (Bytes × Paths)
  unfolding leaf_hash
  leaf_at none paths = none
  leaf_at (some r) paths = some (leaf_hash r, paths)

  -- The two subtrees, one after the other on the same paths, and then each root as a sibling of
  -- the other half.
  join_trees :
      ℕ → ℕ → ℕ → Option (Bytes × Paths) → (Paths → Option (Bytes × Paths)) → Option (Bytes × Paths)
  unfolding node_hash append_range
  join_trees start split size none right = none
  join_trees start split size (some (l, paths)) right = elim (right paths) [
    | none ↦ none
    | some (r, paths') ↦ some (
      node_hash l r,
      append_range 0 (start + split) (start + size) l
          (append_range 0 start (start + split) r paths'),
    )
  ]

  -- `build(start, size)`, with the paths it appends to; `none` is an index out of range. The fuel
  -- bounds the depth.
  unfoldable pub build : ℕ → List Bytes → ℕ → ℕ → Paths → Option (Bytes × Paths)
  unfolding leaf_at join_trees
  build zero records start size paths = none
  build (suc fuel) records start size paths =
      let split = split_size size in
      if size == 1
      then leaf_at (get_elem? records start) paths
      else join_trees start split size (build fuel records start split paths)
          (build fuel records (start + split) (size - split))

  -- `_tree(records)`
  unfoldable pub tree : List Bytes → Option (Bytes × Paths)
  unfolding build
  tree records = build (length records) records 0 (length records) (map (λ _. []) records)

  -- One sibling of the loop.
  unfoldable pub step : ℕ → ℕ → Bytes → Bytes → ℕ × ℕ × Bytes
  unfolding strip node_hash
  step fn sn value sibling =
      if is_odd fn || fn == sn
      then (let s = strip fn fn sn in (s.0 / 2, s.1 / 2, node_hash sibling value))
      else (fn / 2, sn / 2, node_hash value sibling)

  -- The loop: the position, the last position and the value after it, or `none` where it
  -- returned False.
  unfoldable pub climb : ℕ → ℕ → Bytes → List Bytes → Option (ℕ × ℕ × Bytes)
  unfolding step
  climb fn sn value [] = some (fn, sn, value)
  climb fn sn value (sibling ∷ path) =
      if sn == 0 then none else (let s = step fn sn value sibling in climb s.0 s.1 s.2 path)

  unfoldable pub is_root : Bytes → Option (ℕ × ℕ × Bytes) → Bool
  is_root root none = false
  is_root root (some (fn, sn, value)) = sn == 0 && text_eq value root

  -- `_included(record, index, size, path, root)`
  unfoldable pub included : Bytes → ℕ → ℕ → List Bytes → Bytes → Bool
  unfolding leaf_hash climb is_root
  included record_bytes index size path root =
      is_root root (climb index (size - 1) (leaf_hash record_bytes) path)
