-- ===== src/HttpAccess/Pool.antt =====
-- The pool of connections of `Ledger` (`__init__`, `_checkout` and `close` of
-- examples/http_access/ledger.py). A connection is the number of the call of `_open` that made it.
-- `_available` is kept with its end in front. What SQLite does with a connection is not modelled;
-- which connections the pool closes is.
pub mod Borrowers
pub mod Ownership
pub mod Tests
use gpu_batch_crypto.Prelude.{
  ℕ, zero, suc, ◌+◌, ◌-◌, Bool, true, false, Option, none, some, List, [], ◌∷◌, Result, ok, err,
  ◌==◌, if◌then◌else◌,
}

pub record Pool : Type 0 where
  pub pool_size : ℕ
  pub available : List ℕ
  pub active : ℕ
  pub closed : Bool

-- "database pool exhausted", "ledger is closed", "cannot close ledger with active transactions"
pub data PoolError : Type 0 where
  exhausted closed_ledger in_use : PoolError

-- What a borrower meets: a connection, or none where it has to open one itself; the loop goes on
-- waiting; an exception.
pub data Lease : Type 0 where
  granted : Option ℕ → Pool → Lease
  waiting : Lease
  raises : PoolError → Lease

lease_idle : Bool → Pool → List ℕ → Bool → Lease
lease_idle late p idle true = raises closed_ledger
lease_idle late p [] false = if late then raises exhausted else waiting
lease_idle late p (c ∷ cs) false =
    granted (some c) (record p { available = cs; active = p.active + 1 })

lease_new : Pool → Bool → Lease
lease_new p true = raises closed_ledger
lease_new p false = granted none (record p { active = p.active + 1 })

-- The first part of `_checkout`; `late` is whether the deadline has passed.
unfoldable pub lease : Bool → Pool → Lease
unfolding lease_idle lease_new
lease late p =
    if p.pool_size == 0 then lease_new p p.closed else lease_idle late p p.available p.closed

-- `_open` raised: the place is given back.
unfoldable pub open_failed : Pool → Pool
open_failed p = record p { active = p.active - 1 }

give_back : ℕ → Pool → Bool → Pool × List ℕ
give_back c p true = (record p { active = p.active - 1 }, c ∷ [])
give_back c p false = (record p { active = p.active - 1; available = c ∷ p.available }, [])

-- The end of `_checkout`: the pool, and the connections that are closed. `reusable` is whether the
-- rollback, if one was needed, went through; if it did not, the pool is quarantined.
unfoldable pub release : Bool → ℕ → Pool → Pool × List ℕ
unfolding give_back
release true c p =
    if p.pool_size == 0
    then (record p { active = p.active - 1 }, c ∷ [])
    else give_back c p p.closed
release false c p =
    (record p { active = p.active - 1; closed = true; available = [] }, c ∷ p.available)

-- `close`
unfoldable pub close : Pool → Result PoolError (Pool × List ℕ)
close p =
    if p.active == 0
    then ok (record p { closed = true; available = [] }, p.available)
    else err in_use

unfoldable pub opened : ℕ → List ℕ
opened zero = []
opened (suc n) = n ∷ opened n

-- `__init__` with n connections.
unfoldable pub start : ℕ → Pool
start n = record { pool_size = n; available = opened n; active = 0; closed = false }
