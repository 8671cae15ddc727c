-- ===== src/HttpAccess/Pool/Tests.antt =====
-- A short history of a pool of two connections, and the theorems about it.
use gpu_batch_crypto.Prelude.{ℕ, ◌≡◌, refl, Bool, true, false, some, List, [], ◌∷◌, ◌++◌, ok, arith}
use gpu_batch_crypto.HttpAccess.Pool.{Pool, granted, lease, release, close, start, opened}
use gpu_batch_crypto.HttpAccess.Pool.Borrowers.{
  System, Step, borrow, return, take_out, initial, here, next,
}
use gpu_batch_crypto.HttpAccess.Pool.Ownership.{
  IsOwned, count, Reach-IsOwned, close-all, lease-granted,
}

abbrev pool : List ℕ → ℕ → Bool → Pool
pool idle n shut = record { pool_size = 2; available = idle; active = n; closed = shut }

-- One connection is lent, one is idle.
abbrev one_lent : System
one_lent = record {
  pool = pool (0 ∷ []) 1 false;
  leased = 1 ∷ [];
  opening = 0;
  shut = [];
  fresh = 2;
}

-- Its rollback failed.
abbrev broken : System
broken = record { pool = pool [] 0 true; leased = []; opening = 0; shut = 1 ∷ 0 ∷ []; fresh = 2 }

first : Step (initial 2) one_lent
unfolding lease start opened
first = borrow false 1 (pool (0 ∷ []) 1 false) refl refl

second : Step one_lent broken
unfolding release take_out
second = return false 1 [] refl refl

Reach-IsOwned_example : IsOwned broken
Reach-IsOwned_example = Reach-IsOwned 2 (next (next here first) second)

closing : close broken.pool ≡ ok (pool [] 0 true, [])
unfolding close
closing = refl

close-all_example : count 0 ([] ++ broken.shut) ≡ 1
close-all_example = close-all 2 (next (next here first) second) closing 0 (omega arith)

lease-granted_example :
    (c : ℕ) × (p : Pool) × (lease true one_lent.pool ≡ granted (some c) p)
    × (count c one_lent.leased ≡ 0)
lease-granted_example = lease-granted 2 true (next here first) refl (omega arith)
