-- ===== src/AccessBook/Calls.antt =====
-- Sequences of calls of `Clearing` (examples/access_book/engine.py), and the audit after them.
use gpu_batch_crypto.Prelude.{◌≡◌, refl, Bool, true, List, [], ◌∷◌, ok, All, all, arith, length}
use gpu_batch_crypto.Python.Values.{Value}
use gpu_batch_crypto.AccessBook.Checks.{OfferValue}
use gpu_batch_crypto.AccessBook.Tables.{Account, Publisher, Db}
use gpu_batch_crypto.AccessBook.Exec.{State, Env, transaction}
use gpu_batch_crypto.AccessBook.Clearing
use gpu_batch_crypto.AccessBook.Clearing.{
  IssueRequest, ActivateRequest, RedeemRequest, AuditReport, seed_simulated_balance, set_offer,
  revoke_key, unless, buyer_conserved, publisher_conserved, accounts_by_buyer, publishers_by_id,
  insert_account_row, insert_publisher_row, sum_accrued,
}
use gpu_batch_crypto.AccessBook.Invariant.{IsConserved, IsBalanced, empty_db, empty-IsConserved}
use gpu_batch_crypto.AccessBook.Conserve.Spend.{redeem-Keeps, release-Keeps, activate-Keeps}
use gpu_batch_crypto.AccessBook.Conserve.Methods.{
  issue-Keeps, purchase-Keeps, seed-Keeps, set_offer-Keeps, revoke_key-Keeps, audit-Keeps,
}

-- A call of a method, with arguments of any type.
pub data Call : Type 0 where
  seed : Value → Value → Call
  offer : OfferValue → Call
  issue : IssueRequest → Call
  activate : ActivateRequest → Call
  redeem : RedeemRequest → Call
  release : Value → Value → Call
  revoke : Call
  purchase : RedeemRequest → Value → Call
  audit : Call

-- The state after a call, which may have raised.
unfoldable pub after : Env → Call → State → State
after env (Call.seed b n) s = (seed_simulated_balance b n s).1
after env (Call.offer o) s = (set_offer o s).1
after env (Call.issue q) s = (Clearing.issue env q s).1
after env (Call.activate r) s = (Clearing.activate env r s).1
after env (Call.redeem r) s = (Clearing.redeem env r s).1
after env (Call.release book buyer) s = (Clearing.release book buyer s).1
after env Call.revoke s = (revoke_key s).1
after env (Call.purchase r n) s = (Clearing.purchase env r n s).1
after env Call.audit s = (Clearing.audit s).1

unfoldable pub run : Env → List Call → State → State
unfolding after
run env [] s = s
run env (c ∷ cs) s = run env cs (after env c s)

-- A database with the schema and no rows, before anything was used.
abbrev pub initial : State
initial = record {
  db = empty_db;
  effects = record { readings = 0; draws = 0; signings = 0; signatures = 0; verifications = 0 };
}

module _ (env : Env) where
  after-IsConserved : (c : Call) (s : State) → IsConserved s.db → IsConserved (after env c s).db
  unfolding after
  after-IsConserved (Call.seed b n) s = (seed-Keeps b n).at s
  after-IsConserved (Call.offer o) s = (set_offer-Keeps o).at s
  after-IsConserved (Call.issue q) s = (issue-Keeps env q).at s
  after-IsConserved (Call.activate r) s = (activate-Keeps env r).at s
  after-IsConserved (Call.redeem r) s = (redeem-Keeps env r).at s
  after-IsConserved (Call.release book buyer) s = (release-Keeps book buyer).at s
  after-IsConserved Call.revoke s = revoke_key-Keeps.at s
  after-IsConserved (Call.purchase r n) s = (purchase-Keeps env r n).at s
  after-IsConserved Call.audit s = audit-Keeps.at s

  run_from-IsConserved :
      (cs : List Call) (s : State) → IsConserved s.db → IsConserved (run env cs s).db
  unfolding run
  run_from-IsConserved [] s inv = inv
  run_from-IsConserved (c ∷ cs) s inv =
      run_from-IsConserved cs (after env c s) (after-IsConserved c s inv)

-- After any calls of any methods, in any order, returning or raising, from an empty database:
-- every account's initial units are its available, reserved and redeemed units, the reserved ones
-- are the sum over the buyer's books and the redeemed ones the sum over the buyer's redemptions;
-- every publisher has accrued the sum over its redemptions; an open book holds the units of its
-- items that are not redeemed and a closed book holds none; rows refer to rows that exist, and
-- no two books have one id.
pub run-IsConserved : (env : Env) (cs : List Call) → IsConserved (run env cs initial).db
run-IsConserved env cs = run_from-IsConserved env cs initial empty-IsConserved

-- What the audit tests of a row is the invariant of the row.
buyer_conserved-true :
    (db : Db) (a : Account) → IsBalanced db.books db.redemptions a → buyer_conserved db a ≡ true
unfolding buyer_conserved
buyer_conserved-true db a h = ground (arith, h.total, h.reserved, h.redeemed)

publisher_conserved-true :
    (db : Db) (p : Publisher)
    → p.accrued ≡ sum_accrued p.id db.redemptions
    → publisher_conserved db p ≡ true
unfolding publisher_conserved
publisher_conserved-true db p h = ground (arith, h)

-- Sorting the rows does not change whether all pass a test.
module _ (p : Account → Bool) where
  all-insert_account_row :
      (a : Account) (rows : List Account)
      → p a ≡ true
      → all p rows ≡ true
      → all p (insert_account_row a rows) ≡ true
  unfolding insert_account_row
  all-insert_account_row a [] h k = ground arith
  all-insert_account_row a (b ∷ rows) h k = ground (arith, all-insert_account_row a rows)

  all-accounts_by_buyer :
      (P : Account → Type 0) (rows : List Account)
      → ((a : Account) → P a → p a ≡ true)
      → All P rows
      → all p (accounts_by_buyer rows) ≡ true
  unfolding accounts_by_buyer
  all-accounts_by_buyer P [] f h = refl
  all-accounts_by_buyer P (a ∷ rows) f h =
      all-insert_account_row a (accounts_by_buyer rows) (f a h.0)
        (all-accounts_by_buyer P rows f h.1)

module _ (p : Publisher → Bool) where
  all-insert_publisher_row :
      (a : Publisher) (rows : List Publisher)
      → p a ≡ true
      → all p rows ≡ true
      → all p (insert_publisher_row a rows) ≡ true
  unfolding insert_publisher_row
  all-insert_publisher_row a [] h k = ground arith
  all-insert_publisher_row a (b ∷ rows) h k = ground (arith, all-insert_publisher_row a rows)

  all-publishers_by_id :
      (P : Publisher → Type 0) (rows : List Publisher)
      → ((a : Publisher) → P a → p a ≡ true)
      → All P rows
      → all p (publishers_by_id rows) ≡ true
  unfolding publishers_by_id
  all-publishers_by_id P [] f h = refl
  all-publishers_by_id P (a ∷ rows) f h =
      all-insert_publisher_row a (publishers_by_id rows) (f a h.0)
        (all-publishers_by_id P rows f h.1)

abbrev pub report : Db → AuditReport
report db = record {
  accounts = accounts_by_buyer db.accounts;
  publishers = publishers_by_id db.publishers;
  books = length db.books;
  redemptions = length db.redemptions;
}

audit-total : (s : State) → IsConserved s.db → Clearing.audit s ≡ (ok (report s.db), s)
unfolding Clearing.audit transaction unless
audit-total s inv = ground (
  arith,
  all-accounts_by_buyer (buyer_conserved s.db) (IsBalanced s.db.books s.db.redemptions)
      s.db.accounts (buyer_conserved-true s.db) inv.balances,
  all-publishers_by_id (publisher_conserved s.db)
      (λ (p : Publisher). p.accrued ≡ sum_accrued p.id s.db.redemptions) s.db.publishers
      (publisher_conserved-true s.db) inv.accruals,
)

-- After any calls the audit finds no discrepancy: it returns the sorted accounts and publishers
-- with the numbers of books and redemptions, and changes nothing.
pub audit-run :
    (env : Env) (cs : List Call)
    → let s = run env cs initial in Clearing.audit s ≡ (ok (report s.db), s)
audit-run env cs = audit-total (run env cs initial) (run-IsConserved env cs)
