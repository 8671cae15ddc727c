-- ===== src/HttpAccess/Pool/Borrowers.antt =====
-- The pool with its borrowers, the threads inside `_checkout` of examples/http_access/ledger.py:
-- each step is under the lock `_condition`, so that a history is a sequence of steps.
use gpu_batch_crypto.Prelude.{
  ℕ, suc, ◌+◌, ◌≡◌, Bool, Option, none, some, List, [], ◌∷◌, ◌++◌, ok, ◌==◌, if◌then◌else◌,
}
use gpu_batch_crypto.HttpAccess.Pool.{Pool, granted, lease, open_failed, release, close, start}

-- Connections in the hands of borrowers, borrowers that are opening one, connections that were
-- closed, and the number of the next connection.
pub record System : Type 0 where
  pub pool : Pool
  pub leased : List ℕ
  pub opening : ℕ
  pub shut : List ℕ
  pub fresh : ℕ

put_front : ℕ → Option (List ℕ) → Option (List ℕ)
put_front c none = none
put_front c (some cs) = some (c ∷ cs)

-- The list without its first occurrence of the number.
unfoldable pub take_out : ℕ → List ℕ → Option (List ℕ)
unfolding put_front
take_out c [] = none
take_out c (d ∷ ds) = let rest = put_front d (take_out c ds) in if d == c then some ds else rest

pub data Step (s s' : System) : Type 0 where
  borrow :
      (late : Bool) (c : ℕ) (p : Pool)
      → lease late s.pool ≡ granted (some c) p
      → s' ≡ record s { pool = p; leased = c ∷ s.leased }
      → Step s s'
  begin_open :
      (late : Bool) (p : Pool)
      → lease late s.pool ≡ granted none p
      → s' ≡ record s { pool = p; opening = s.opening + 1 }
      → Step s s'
  end_open :
      (n : ℕ)
      → s.opening ≡ suc n
      → s' ≡ record s { opening = n; leased = s.fresh ∷ s.leased; fresh = s.fresh + 1 }
      → Step s s'
  fail_open :
      (n : ℕ)
      → s.opening ≡ suc n
      → s' ≡ record s { opening = n; pool = open_failed s.pool }
      → Step s s'
  return :
      (reusable : Bool) (c : ℕ) (rest : List ℕ)
      → take_out c s.leased ≡ some rest
      → s' ≡ record s {
        leased = rest;
        pool = (release reusable c s.pool).0;
        shut = (release reusable c s.pool).1 ++ s.shut;
      }
      → Step s s'
  close_pool :
      (p : Pool) (cs : List ℕ)
      → close s.pool ≡ ok (p, cs)
      → s' ≡ record s { pool = p; shut = cs ++ s.shut }
      → Step s s'

-- A ledger that was just made with n connections.
abbrev pub initial : ℕ → System
initial n = record { pool = start n; leased = []; opening = 0; shut = []; fresh = n }

pub data Reach (n : ℕ) : System → Type 0 where
  here : Reach n (initial n)
  next : {s s' : System} → Reach n s → Step s s' → Reach n s'
