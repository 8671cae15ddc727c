-- ===== src/Sql.antt =====
-- SQL as examples/access_book/engine.py uses it: a table is the list of its rows in insertion order,
-- and a statement is a function of the table. A statement that a CHECK refuses gives `none`; the
-- key constraints are tests that come before a row is appended.
pub mod Laws
pub mod Update
pub mod Narrow
use gpu_batch_crypto.Prelude.{
  ℕ, ◌+◌, Bool, true, false, Option, none, some, List, [], ◌∷◌, if◌then◌else◌,
}

module _ {ℓ} {A : Type ℓ} where
  -- `SELECT * FROM t WHERE p`, then `fetchone()`
  unfoldable pub select_first : (A → Bool) → List A → Option A
  select_first p [] = none
  select_first p (x ∷ xs) = if p x then some x else select_first p xs

  -- `SELECT COALESCE(SUM(f),0) FROM t WHERE p`
  unfoldable pub select_sum : (A → Bool) → (A → ℕ) → List A → ℕ
  select_sum p f [] = 0
  select_sum p f (x ∷ xs) = (if p x then f x else 0) + select_sum p f xs

  -- one row through the assignment, kept in front of the rows that are done
  abbrev pub put_row : Option A → Option (List A) → Option (List A)
  put_row (some x) (some xs) = some (x ∷ xs)
  put_row (some x) none = none
  put_row none xs = none

  -- `UPDATE t SET ... WHERE p`, whose assignment gives `none` where a CHECK of the row fails
  unfoldable pub update_where : (A → Bool) → (A → Option A) → List A → Option (List A)
  update_where p g [] = some []
  update_where p g (x ∷ xs) = put_row (if p x then g x else some x) (update_where p g xs)
