-- ===== src/AccessBook/Conserve/Rules.antt =====
-- The actions that leave the database alone, as rules for `search`.
use gpu_batch_crypto.Prelude.{
  ◌≡◌, refl, Bool, true, false, Option, none, some, Result, Text, Bytes, ℕ,
}
use gpu_batch_crypto.AccessBook.Checks.{Error, Denial}
use gpu_batch_crypto.AccessBook.Tables.{Db, Claims, activate_row, update_books}
use gpu_batch_crypto.AccessBook.Exec.{
  State, Env, pure, raise, gets, lift, or_raise, deny_if, execute, written, now, draw,
}
use gpu_batch_crypto.AccessBook.Authority.{sign, verify}
use gpu_batch_crypto.AccessBook.Clearing.{key_ok}
use gpu_batch_crypto.AccessBook.Invariant.{IsConserved}
use gpu_batch_crypto.AccessBook.Invariant.Catalog.{activate-IsConserved}
use gpu_batch_crypto.AccessBook.Conserve.Keeps.{Keeps, Keeps-bind, Keeps-transaction, Keeps-same}

module _ {A : Type 0} where
  pub Keeps-pure : (a : A) → Keeps (pure a)
  Keeps-pure a = Keeps-same (pure a) (λ s. refl)

  pub Keeps-raise : (d : Denial) → Keeps (raise {A = A} d)
  Keeps-raise d = Keeps-same (raise d) (λ s. refl)

  pub Keeps-gets : (f : Db → A) → Keeps (gets f)
  Keeps-gets f = Keeps-same (gets f) (λ s. refl)

  pub Keeps-lift : (r : Result Error A) → Keeps (lift r)
  Keeps-lift r = Keeps-same (lift r) (λ s. refl)

  pub Keeps-or_raise : (o : Option A) (d : Denial) → Keeps (or_raise o d)
  Keeps-or_raise none d = Keeps-same (or_raise none d) (λ s. refl)
  Keeps-or_raise (some a) d = Keeps-same (or_raise (some a) d) (λ s. refl)

pub Keeps-deny_if : (b : Bool) (d : Denial) → Keeps (deny_if b d)
Keeps-deny_if true d = Keeps-same (deny_if true d) (λ s. refl)
Keeps-deny_if false d = Keeps-same (deny_if false d) (λ s. refl)

-- A statement that keeps the invariant where the database takes it.
pub Keeps-execute :
    (f : Db → Option Db)
    → ((db db' : Db) → IsConserved db → f db ≡ some db' → IsConserved db')
    → Keeps (execute f)
Keeps-execute f k = record { at = λ s inv. go s inv (f s.db) refl }
  where
    go :
        (s : State)
        → IsConserved s.db
        → (o : Option Db) → f s.db ≡ o
        → IsConserved (written s o).1.db
    go s inv none e = inv
    go s inv (some db') e = k s.db db' inv e

module _ (env : Env) where
  pub Keeps-now : Keeps (now env)
  unfolding now
  Keeps-now = Keeps-same (now env) (λ s. refl)

  pub Keeps-draw : Keeps (draw env)
  unfolding draw
  Keeps-draw = Keeps-same (draw env) (λ s. refl)

  pub Keeps-sign : (payload : Bytes) → Keeps (sign env payload)
  unfolding sign
  Keeps-sign payload = Keeps-same (sign env payload) (λ s. refl)

  pub Keeps-verify :
      (token : Text) (expected : Claims) (at : ℕ) → Keeps (verify env token expected at)
  unfolding verify
  Keeps-verify token expected at = search (Keeps-bind, Keeps-deny_if, Keeps-same)

pub Keeps-key_ok : Keeps key_ok
unfolding key_ok
Keeps-key_ok = search (Keeps-bind, Keeps-deny_if, Keeps-gets)

pub Keeps-activation : (id : Text) → Keeps (execute (update_books activate_row id))
Keeps-activation id =
    Keeps-execute (update_books activate_row id) (λ db db' inv e. activate-IsConserved inv id e)

pub ruleset keeps_rules = (
  Keeps-bind, Keeps-pure, Keeps-raise, Keeps-gets, Keeps-lift, Keeps-or_raise, Keeps-deny_if,
  Keeps-now, Keeps-draw, Keeps-sign, Keeps-verify, Keeps-key_ok, Keeps-activation,
  Keeps-transaction,
)
