-- ===== src/AccessBook/Connection.antt =====
-- The connection of examples/access_book/engine.py: `Clearing.transaction` with the statements that
-- it sends, and the methods that run in it. AccessBook/Exec has the same methods over a transaction
-- that is one step.
pub mod Methods
use gpu_batch_crypto.Prelude.{Bool, true, false, List, [], ◌∷◌, Result, ok, err, if◌then◌else◌}
use gpu_batch_crypto.AccessBook.Checks.{Error}
use gpu_batch_crypto.AccessBook.Tables.{Db}
use gpu_batch_crypto.AccessBook.Exec.{State, Exec}

-- The state with what the open transaction began from and, in front of it, what each of its
-- savepoints did.
pub record Connection : Type 0 where
  pub state : State
  pub saved : List Db

abbrev pub OnConnection : Type 0 → Type 0
OnConnection A = Connection → Result Error A × Connection

-- self.db.in_transaction
unfoldable pub in_transaction : Connection → Bool
in_transaction c = elim c.saved as (λ _. Bool) [ [] ↦ false | db ∷ dbs ↦ true ]

-- BEGIN IMMEDIATE, outside a transaction
unfoldable pub begin_immediate : Connection → Connection
begin_immediate c = record c { saved = c.state.db ∷ [] }

-- COMMIT
unfoldable pub commit : Connection → Connection
commit c = record c { saved = [] }

last : Db → List Db → Db
last db [] = db
last db (db' ∷ dbs) = last db' dbs

-- ROLLBACK: to where the transaction began
unfoldable pub rollback : Connection → Connection
unfolding last
rollback c = record { state = record c.state { db = last c.state.db c.saved }; saved = [] }

-- SAVEPOINT access_book_step
unfoldable pub savepoint : Connection → Connection
savepoint c = record c { saved = c.state.db ∷ c.saved }

newest : Db → List Db → Db
newest db [] = db
newest db (db' ∷ dbs) = db'

-- ROLLBACK TO access_book_step: to the newest of that name, which stays
unfoldable pub rollback_to : Connection → Connection
unfolding newest
rollback_to c = record c { state = record c.state { db = newest c.state.db c.saved } }

older : List Db → List Db
older [] = []
older (db ∷ dbs) = dbs

-- RELEASE access_book_step: the newest
unfoldable pub release_step : Connection → Connection
unfolding older
release_step c = record c { saved = older c.saved }

module _ {A : Type 0} where
  -- The end of a step in an open transaction.
  unfoldable pub step_ended : Result Error A × Connection → Result Error A × Connection
  step_ended (ok a, c) = (ok a, release_step c)
  step_ended (err e, c) = (err e, release_step (rollback_to c))

  -- The end of a transaction.
  unfoldable pub ended : Result Error A × Connection → Result Error A × Connection
  ended (ok a, c) = (ok a, commit c)
  ended (err e, c) = (err e, if in_transaction c then rollback c else c)

  -- with self.transaction(): ...
  unfoldable pub transaction : OnConnection A → OnConnection A
  unfolding step_ended ended
  transaction body c =
      if in_transaction c then step_ended (body (savepoint c)) else ended (body (begin_immediate c))

  -- Code that sends none of those statements.
  unfoldable pub plain : Exec A → OnConnection A
  plain m c = let (r, s) = m c.state in (r, record { state = s; saved = c.saved })

infixl 5 ◌>>=◌ ◌>>◌
abbrev pub ◌>>=◌ : {A B : Type 0} → OnConnection A → (A → OnConnection B) → OnConnection B
◌>>=◌ m f c = let (r, c') = m c in elim r [ ok a ↦ f a c' | err e ↦ (err e, c') ]

abbrev pub ◌>>◌ : {A B : Type 0} → OnConnection A → OnConnection B → OnConnection B
m >> k = m >>= λ _. k
