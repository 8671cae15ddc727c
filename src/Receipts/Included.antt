-- ===== src/Receipts/Included.antt =====
-- `_included` (python/batchcrypto/receipts.py) on the paths of `_tree`.
use gpu_batch_crypto.Prelude.{
  ℕ, zero, suc, ◌+◌, ◌-◌, ◌≤◌, ◌<◌, ◌≡◌, refl, true, some, List, [], ◌∷◌, map, Bytes, arith, length,
  get_elem?, text_eq_refl,
}
use gpu_batch_crypto.Receipts.Tree.{Paths, leaf_hash, tree, climb, is_root, included}
use gpu_batch_crypto.Receipts.Climb.{pow2}
use gpu_batch_crypto.Receipts.Complete.{build-Built, Built}

empty_path :
    (records : List Bytes) (j : ℕ) {r : Bytes}
    → get_elem? records j ≡ some r
    → get_elem? {A = List Bytes} (map (λ _. []) records) j ≡ some []
empty_path [] j h = cc
empty_path (x ∷ records) zero h = refl
empty_path (x ∷ records) (suc j) h = empty_path records j h

pub get_elem?-lt : (xs : List Bytes) (j : ℕ) {x : Bytes} → get_elem? xs j ≡ some x → j < length xs
get_elem?-lt [] j h = cc
get_elem?-lt (x ∷ xs) zero h = omega arith
get_elem?-lt (x ∷ xs) (suc j) h = omega (arith, get_elem?-lt xs j h)

-- What `_tree` gives a record: a path that `_included` accepts.
pub record Proven (sha256 : Bytes → Bytes) (records : List Bytes) (root : Bytes) (paths : Paths)
    (j : ℕ) (r : Bytes) : Type 0 where
  pub path : List Bytes
  pub listed : get_elem? paths j ≡ some path
  pub accepted : included sha256 r j (length records) path root ≡ true
  pub short : (e : ℕ) → length records ≤ pow2 e → length path ≤ e
  pub reaches : climb sha256 j (length records - 1) (leaf_hash sha256 r) path ≡ some (0, 0, root)

module _ (sha256 : Bytes → Bytes) (records : List Bytes) where
  proven :
      (root : Bytes) (paths : Paths) (j : ℕ) (r : Bytes)
      → Built sha256 records 0 (length records) (map (λ _. []) records) root paths
      → get_elem? records j ≡ some r
      → Proven sha256 records root paths j r
  unfolding included is_root
  proven root paths j r built e =
      let start : 0 + j ≡ j = omega arith in
      let (path, listed, leads) =
        built.inside j r [] (get_elem?-lt records j e) (rw start e)
          (rw start (empty_path records j e)) in
      record {
        path = path;
        listed = (rw start at listed);
        accepted = rw (leads.reaches) (ground (arith, text_eq_refl root));
        short = leads.short;
        reaches = leads.reaches;
      }

  -- The tree of one record or more is made, with a path for every record.
  pub tree_all-Proven :
      1 ≤ length records
      → (root : Bytes) × (paths : Paths) × (tree sha256 records ≡ some (root, paths))
        × ((j : ℕ) (r : Bytes)
            → get_elem? records j ≡ some r
            → Proven sha256 records root paths j r)
  unfolding tree
  tree_all-Proven h =
      let (root, paths, e, built) =
        build-Built sha256 records (length records) 0 (length records) (map (λ _. []) records) h
          (omega arith) (omega arith) in
      (root, paths, e, λ j r found. proven root paths j r built found)

-- For every record of a list, `_tree` returns a root and paths, and the path at the index of the
-- record is accepted by `_included` for the record at that index against the root; with at most
-- 2^e records the path has at most e siblings.
pub tree-Proven :
    (sha256 : Bytes → Bytes) (records : List Bytes) (j : ℕ) (r : Bytes)
    → get_elem? records j ≡ some r
    → (root : Bytes) × (paths : Paths) × (tree sha256 records ≡ some (root, paths))
      × Proven sha256 records root paths j r
tree-Proven sha256 records j r found =
    let (root, paths, made, all) =
      tree_all-Proven sha256 records (omega (arith, get_elem?-lt records j found)) in
    (root, paths, made, all j r found)
