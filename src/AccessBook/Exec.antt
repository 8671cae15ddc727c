-- ===== src/AccessBook/Exec.antt =====
-- A method of `Clearing` is an action: it may raise, and it changes the database and the objects
-- outside it (the clock, the random source, the counters of the authority). The state comes back
-- after a raise too: a transaction restores the database, and nothing else.
use gpu_batch_crypto.Prelude.{
  ℕ, ◌+◌, Bool, true, false, Option, none, some, Text, Bytes, Result, ok, err,
}
use gpu_batch_crypto.Prelude.Int.{ℤ}
use gpu_batch_crypto.Python.Json.{Json}
use gpu_batch_crypto.Python.Values
use gpu_batch_crypto.AccessBook.Checks.{Error, denied, Denial, integrity, integer, max_units}
use gpu_batch_crypto.AccessBook.Tables.{Db}

-- How often each external source was used, and the two counters that `Authority` keeps.
pub record Effects : Type 0 where
  pub readings : ℕ
  pub draws : ℕ
  pub signings : ℕ
  pub signatures : ℕ
  pub verifications : ℕ

pub record State : Type 0 where
  pub db : Db
  pub effects : Effects

-- Code that is not the program's: the clock (`int(clock())` at the n-th reading), the random source
-- (`secrets.token_hex(16)` at the n-th draw), SHA-256, the private key (the scalars of the n-th
-- signature of a digest) and `jwt.decode` under the pinned key and issuer with the header that
-- `jwt.get_unverified_header` gives, by token and audience; `none` is a PyJWTError.
pub record Env : Type 0 where
  pub clock : ℕ → ℤ
  pub token_hex : ℕ → Text
  pub sha256 : Bytes → Bytes
  pub private_sign : ℕ → Bytes → ℕ × ℕ
  pub jwt_decode : Text → Text → Option (Json × Json)

abbrev pub Exec : Type 0 → Type 0
Exec A = State → Result Error A × State

module _ {A : Type 0} where
  abbrev pub pure : A → Exec A
  pure a s = (ok a, s)

  abbrev pub raise : Denial → Exec A
  raise d s = (err (denied d), s)

  abbrev pub gets : (Db → A) → Exec A
  gets f s = (ok (f s.db), s)

  abbrev pub lift : Result Error A → Exec A
  lift r s = (r, s)

  abbrev pub or_raise : Option A → Denial → Exec A
  or_raise none d s = (err (denied d), s)
  or_raise (some a) d s = (ok a, s)

infixl 5 ◌>>=◌ ◌>>◌
abbrev pub ◌>>=◌ : {A B : Type 0} → Exec A → (A → Exec B) → Exec B
◌>>=◌ m f s = let (r, s') = m s in elim r [ ok a ↦ f a s' | err e ↦ (err e, s') ]

abbrev pub ◌>>◌ : {A B : Type 0} → Exec A → Exec B → Exec B
m >> k = m >>= λ _. k

abbrev pub deny_if : Bool → Denial → Exec (Unit {0})
deny_if true d s = (err (denied d), s)
deny_if false d s = (ok tt, s)

abbrev pub written : State → Option Db → Result Error (Unit {0}) × State
written s none = (err integrity, s)
written s (some db) = (ok tt, record s { db = db })

-- One statement that writes.
abbrev pub execute : (Db → Option Db) → Exec (Unit {0})
execute f s = written s (f s.db)

abbrev pub modify : (Db → Db) → Exec (Unit {0})
modify f s = (ok tt, record s { db = f s.db })

-- The database is restored if the body raised.
abbrev pub restored {ℓ} : {A : Type ℓ} → Db → Result Error A × State → Result Error A × State
restored db (ok a, s) = (ok a, s)
restored db (err e, s) = (err e, record s { db = db })

-- A transaction, or a step of one, as a single step. AccessBook/Connection has the statements of
-- `Clearing.transaction`, and AccessBook/Atomic shows that they come to this.
unfoldable pub transaction : {A : Type 0} → Exec A → Exec A
transaction m s = restored s.db (m s)

module _ (env : Env) where
  -- `self.now()`: integer(int(self.clock()), 1)
  unfoldable pub now : Exec ℕ
  now s = (
    integer (Values.int (env.clock s.effects.readings)) 1 max_units,
    record s { effects = record s.effects { readings = s.effects.readings + 1 } },
  )

  -- secrets.token_hex(16)
  unfoldable pub draw : Exec Text
  draw s = (
    ok (env.token_hex s.effects.draws),
    record s { effects = record s.effects { draws = s.effects.draws + 1 } },
  )
