-- ===== src/AccessBook/Conserve/Keeps.antt =====
-- Actions and the invariant, and how they compose.
use gpu_batch_crypto.Prelude.{◌≡◌, refl, Result, ok, err}
use gpu_batch_crypto.AccessBook.Checks.{Error}
use gpu_batch_crypto.AccessBook.Exec.{State, Exec, lift, restored, transaction, ◌>>=◌}
use gpu_batch_crypto.AccessBook.Invariant.{IsConserved}
use gpu_batch_crypto.AccessBook.Hoare.{Post}

pub record Keeps {A : Type 0} (m : Exec A) : Type 0 where
  pub at : (s : State) → IsConserved s.db → IsConserved (m s).1.db

module _ {A : Type 0} where
  pub Keeps-bind :
      {B : Type 0} (m : Exec A) (f : A → Exec B)
      → Keeps m
      → ((a : A) → Keeps (f a))
      → Keeps (m >>= f)
  Keeps-bind {B = B} m f k l = record { at = λ s inv. go (m s) (k.at s inv) }
    where
      go :
          (x : Result Error A × State)
          → IsConserved x.1.db
          → IsConserved
              (elim x.0 as (λ _. Result Error B × State) [
                | ok a ↦ f a x.1
                | err e ↦ (err e, x.1)
              ]).1.db
      go (ok a, s) inv = (l a).at s inv
      go (err e, s) inv = inv

  pub Keeps-transaction : (m : Exec A) → Keeps m → Keeps (transaction m)
  unfolding transaction
  Keeps-transaction m k = record { at = λ s inv. go s inv (m s) (k.at s inv) }
    where
      go :
          (s : State)
          → IsConserved s.db
          → (x : Result Error A × State) → IsConserved x.1.db
          → IsConserved (restored s.db x).1.db
      go s inv (ok a, s') h = h
      go s inv (err e, s') h = inv

  -- A body that need not keep the invariant where it raises.
  pub Keeps-body :
      (m : Exec A)
      → ((s : State) (a : A) (s' : State) → IsConserved s.db → m s ≡ (ok a, s') → IsConserved s'.db)
      → Keeps (transaction m)
  unfolding transaction
  Keeps-body m k = record { at = λ s inv. go s inv (m s) refl }
    where
      go :
          (s : State)
          → IsConserved s.db
          → (x : Result Error A × State) → m s ≡ x
          → IsConserved (restored s.db x).1.db
      go s inv (ok a, s') e = k s a s' inv e
      go s inv (err e, s') _ = inv

  -- An action that leaves the database alone.
  pub Keeps-same : (m : Exec A) → ((s : State) → (m s).1.db ≡ s.db) → Keeps m
  Keeps-same m same = record { at = λ s inv. rw (same s) inv }

  -- The postcondition of a transaction, whose failures leave the database alone.
  pub Keeps-Post :
      (E : Error → Type 0) (m : Exec A)
      → ((s : State) → IsConserved s.db → Post (λ _ db. IsConserved db) E (transaction m s))
      → Keeps (transaction m)
  unfolding transaction
  Keeps-Post E m h = record { at = λ s inv. go s inv (m s) (h s inv) }
    where
      go :
          (s : State)
          → IsConserved s.db
          → (x : Result Error A × State) → Post (λ _ db. IsConserved db) E (restored s.db x)
          → IsConserved (restored s.db x).1.db
      go s inv (ok a, s') h = h
      go s inv (err e, s') h = inv

  -- The checks of the arguments, and then an action on the values that they let through.
  pub Keeps-checked :
      {B : Type 0} (r : Result Error A) (f : A → Exec B)
      → ((a : A) → r ≡ ok a → Keeps (f a))
      → Keeps (lift r >>= f)
  Keeps-checked (ok a) f k = record { at = λ s inv. (k a refl).at s inv }
  Keeps-checked (err e) f k = record { at = λ s inv. inv }
