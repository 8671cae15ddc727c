-- ===== src/AccessBook/Atomic.antt =====
-- What the methods of `Clearing` (examples/access_book/engine.py) leave behind, with the statements
-- that their transactions send.
use mathlib.Core.Path.{subst}
use gpu_batch_crypto.Prelude.{
  ◌≡◌, refl, sym, ◌∙◌, ap, true, false, Bool, List, [], ◌∷◌, Result, ok, err,
}
use gpu_batch_crypto.Python.Values.{Value}
use gpu_batch_crypto.AccessBook.Checks.{Error, OfferValue}
use gpu_batch_crypto.AccessBook.Tables.{Db}
use gpu_batch_crypto.AccessBook.Exec
use gpu_batch_crypto.AccessBook.Exec.{State, Env, Exec, lift, restored}
use gpu_batch_crypto.AccessBook.Clearing
use gpu_batch_crypto.AccessBook.Clearing.{
  IssueRequest, ActivateRequest, RedeemRequest, AuditReport, issue_checked, activate_checked,
  redeem_checked, release_checked, activate_unless, key_ok,
}
use gpu_batch_crypto.AccessBook.Connection
use gpu_batch_crypto.AccessBook.Connection.{
  Connection, OnConnection, plain, in_transaction, begin_immediate, commit, rollback, savepoint,
  rollback_to, release_step, step_ended, ended,
}
use gpu_batch_crypto.AccessBook.Connection.Methods

-- The same result and state as the action, with the transaction and the savepoints as they were.
pub record Agrees {A : Type 0} (c : OnConnection A) (m : Exec A) : Type 0 where
  pub at : (x : Connection) → c x ≡ plain m x

module _ {A : Type 0} where
  Agrees-plain : (m : Exec A) → Agrees (plain m) m
  Agrees-plain m = record { at = λ x. refl }

  Agrees-bind :
      {B : Type 0} (c : OnConnection A) (m : Exec A) (f : A → OnConnection B) (g : A → Exec B)
      → Agrees c m
      → ((a : A) → Agrees (f a) (g a))
      → Agrees (Connection.◌>>=◌ c f) (Exec.◌>>=◌ m g)
  unfolding plain
  Agrees-bind {B} c m f g h k = record { at = λ x. ap bound (h.at x) ∙ go x (m x.state) }
    where
      bound : Result Error A × Connection → Result Error B × Connection
      bound y = elim y.0 as (λ _. Result Error B × Connection) [
        | ok a ↦ f a (y.1)
        | err e ↦ (err e, y.1)
      ]

      run : Result Error A × State → Result Error B × State
      run z = elim z.0 as (λ _. Result Error B × State) [ ok a ↦ g a (z.1) | err e ↦ (err e, z.1) ]

      go :
          (x : Connection) (z : Result Error A × State)
          → bound (z.0, record { state = z.1; saved = x.saved })
            ≡ ((run z).0, record { state = (run z).1; saved = x.saved })
      go x (ok a, s) = (k a).at (record { state = s; saved = x.saved })
      go x (err e, s) = refl

  -- BEGIN or SAVEPOINT, the body, and COMMIT, RELEASE or a rollback.
  Agrees-transaction :
      (c : OnConnection A) (m : Exec A)
      → Agrees c m
      → Agrees (Connection.transaction c) (Exec.transaction m)
  unfolding Connection.transaction Exec.transaction plain in_transaction begin_immediate commit
      rollback savepoint rollback_to release_step step_ended ended
  Agrees-transaction c m h = record { at = λ x. go x.state x.saved }
    where
      at_end :
          (s : State) (z : Result Error A × State)
          → ended (z.0, record { state = z.1; saved = s.db ∷ [] })
            ≡ ((restored s.db z).0, record { state = (restored s.db z).1; saved = [] })
      at_end s (ok a, t) = refl
      at_end s (err e, t) = refl

      at_step :
          (s : State) (saved : List Db) (z : Result Error A × State)
          → step_ended (z.0, record { state = z.1; saved = s.db ∷ saved })
            ≡ ((restored s.db z).0, record { state = (restored s.db z).1; saved = saved })
      at_step s saved (ok a, t) = refl
      at_step s saved (err e, t) = refl

      go :
          (s : State) (saved : List Db)
          → Connection.transaction c (record { state = s; saved = saved })
            ≡ plain (Exec.transaction m) (record { state = s; saved = saved })
      go s [] = ap ended (h.at (record { state = s; saved = s.db ∷ [] })) ∙ at_end s (m s)
      go s (db ∷ dbs) =
          ap step_ended (h.at (record { state = s; saved = s.db ∷ db ∷ dbs }))
          ∙ at_step s (db ∷ dbs) (m s)

ruleset agree_rules = (Agrees-plain, Agrees-bind, Agrees-transaction)

set_offer-Agrees : (o : OfferValue) → Agrees (Methods.set_offer o) (Clearing.set_offer o)
unfolding Methods.set_offer Clearing.set_offer
set_offer-Agrees o = search agree_rules

release-Agrees :
    (book buyer : Value) → Agrees (Methods.release book buyer) (Clearing.release book buyer)
unfolding Methods.release Clearing.release release_checked
release-Agrees book buyer = search agree_rules

audit-Agrees : Agrees Methods.audit Clearing.audit
unfolding Methods.audit Clearing.audit
audit-Agrees = search agree_rules

module _ (env : Env) where
  issue-Agrees : (r : IssueRequest) → Agrees (Methods.issue env r) (Clearing.issue env r)
  unfolding Methods.issue Clearing.issue issue_checked
  issue-Agrees r = search agree_rules

  activate-Agrees :
      (r : ActivateRequest) → Agrees (Methods.activate env r) (Clearing.activate env r)
  unfolding Methods.activate Clearing.activate activate_checked
  activate-Agrees r = search agree_rules

  redeem-Agrees : (r : RedeemRequest) → Agrees (Methods.redeem env r) (Clearing.redeem env r)
  unfolding Methods.redeem Clearing.redeem redeem_checked
  redeem-Agrees r = search agree_rules

  activate_unless-Agrees :
      (b : Bool) (r : ActivateRequest)
      → Agrees (Methods.activate_unless b env r) (Clearing.activate_unless b env r)
  unfolding Methods.activate_unless Clearing.activate_unless
  activate_unless-Agrees true r = search agree_rules
  activate_unless-Agrees false r =
      Agrees-bind (Methods.activate env r) (Clearing.activate env r) (λ _. plain (Exec.pure tt))
        (λ _. Exec.pure tt) (activate-Agrees r) (λ _. Agrees-plain (Exec.pure tt))

  purchase-Agrees :
      (r : RedeemRequest) (max_units : Value)
      → Agrees (Methods.purchase env r max_units) (Clearing.purchase env r max_units)
  unfolding Methods.purchase Clearing.purchase
  purchase-Agrees r max_units =
      search (agree_rules, issue-Agrees, activate_unless-Agrees, redeem-Agrees) depth 14

-- Where the action raised, the database is what it was.
abbrev Unchanged : {A : Type 0} → Db → Result Error A × State → Type 0
Unchanged before (ok a, s) = Unit
Unchanged before (err e, s) = s.db ≡ before

record Restores {A : Type 0} (m : Exec A) : Type 0 where
  at : (s : State) → Unchanged s.db (m s)

module _ {A : Type 0} where
  Restores-transaction : (m : Exec A) → Restores (Exec.transaction m)
  unfolding Exec.transaction
  Restores-transaction m = record { at = λ s. go s (m s) }
    where
      go : (s : State) (x : Result Error A × State) → Unchanged s.db (restored s.db x)
      go s (ok a, t) = tt
      go s (err e, t) = refl

  -- The checks of the arguments touch nothing.
  Restores-checked :
      {B : Type 0} (r : Result Error A) (f : A → Exec B)
      → ((a : A) → Restores (f a))
      → Restores (Exec.◌>>=◌ (lift r) f)
  Restores-checked (ok a) f k = record { at = (k a).at }
  Restores-checked (err e) f k = record { at = λ s. refl }

ruleset restore_rules = (Restores-transaction, Restores-checked)

-- As many transactions and savepoints are open as before, and where the method raised the database
-- is what it was.
abbrev pub Kept : {A : Type 0} → Connection → Result Error A × Connection → Type 0
Kept before (ok a, c) = c.saved ≡ before.saved
Kept before (err e, c) = (c.saved ≡ before.saved) × (c.state.db ≡ before.state.db)

-- A method that agrees with its model and keeps that.
pub record Transacts {A : Type 0} (c : OnConnection A) (m : Exec A) : Type 0 where
  pub agrees : Agrees c m
  pub kept : (x : Connection) → Kept x (c x)

transacts : {A : Type 0} (c : OnConnection A) (m : Exec A) → Agrees c m → Restores m → Transacts c m
unfolding plain
transacts {A} c m h k = record {
  agrees = h;
  kept = λ x. subst (Kept x) (sym (h.at x)) (go x (m x.state) (k.at x.state));
}
  where
    go :
        (x : Connection) (z : Result Error A × State)
        → Unchanged x.state.db z
        → Kept {A = A} x (z.0, record { state = z.1; saved = x.saved })
    go x (ok a, s) u = refl
    go x (err e, s) u = (refl, u)

-- Each method that opens a transaction, run with BEGIN IMMEDIATE, COMMIT and ROLLBACK or, inside an
-- open transaction, with SAVEPOINT, ROLLBACK TO and RELEASE, returns or raises and changes the
-- database as its model does, in which a transaction is one step; it leaves the transaction and the
-- savepoints that were open as they were, and where it raises the database is what it was.
pub methods-Transacts :
    (env : Env)
    → ((q : IssueRequest) → Transacts (Methods.issue env q) (Clearing.issue env q))
      × ((r : ActivateRequest) → Transacts (Methods.activate env r) (Clearing.activate env r))
      × ((r : RedeemRequest) → Transacts (Methods.redeem env r) (Clearing.redeem env r))
      × ((book buyer : Value)
          → Transacts (Methods.release book buyer) (Clearing.release book buyer))
      × ((r : RedeemRequest) (max_units : Value)
          → Transacts (Methods.purchase env r max_units) (Clearing.purchase env r max_units))
      × ((o : OfferValue) → Transacts (Methods.set_offer o) (Clearing.set_offer o))
      × Transacts Methods.audit Clearing.audit
unfolding Clearing.issue issue_checked Clearing.activate activate_checked Clearing.redeem
    redeem_checked Clearing.release release_checked Clearing.purchase Clearing.set_offer
    Clearing.audit
methods-Transacts env = (
  λ q. transacts _ _ (issue-Agrees env q) (search restore_rules),
  λ r. transacts _ _ (activate-Agrees env r) (search restore_rules),
  λ r. transacts _ _ (redeem-Agrees env r) (search restore_rules),
  λ book buyer. transacts _ _ (release-Agrees book buyer) (search restore_rules),
  λ r n. transacts _ _ (purchase-Agrees env r n) (search restore_rules),
  λ o. transacts _ _ (set_offer-Agrees o) (search restore_rules),
  transacts _ _ audit-Agrees (search restore_rules),
)
