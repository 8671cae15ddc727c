-- ===== src/HttpAccess/Reach.antt =====
-- What calls of the ledger (examples/http_access/ledger.py) make of its database. Threads of the
-- server call it at the same time and SQLite runs their transactions one after the other, so that
-- a history is a sequence of transactions. An `issue` whose retry check found nothing commits
-- later, after any transactions of other threads.
use gpu_batch_crypto.Prelude.{
  ℕ, ◌+◌, ◌≡◌, refl, inl, inr, Bool, true, List, [], ◌∷◌, Text, Bytes, ok, Returns-ok, arith, All,
  all, length, Bool-cases,
}
use gpu_batch_crypto.Python.Json.{text_le}
use gpu_batch_crypto.Python.Values.{Value}
use gpu_batch_crypto.Sql.{select_sum}
use gpu_batch_crypto.HttpAccess.Checks.{Catalog}
use gpu_batch_crypto.HttpAccess.Tables.{Account, Db}
use gpu_batch_crypto.HttpAccess.Ledger
use gpu_batch_crypto.HttpAccess.Ledger.{
  Sign, Issuing, IssueArgs, Prepared, Clearing, SpendRequest, CancelRequest, Report, transaction,
  issue_prepare, issue_commit, buyer_conserved, by_buyer, insert_row, sum_spent,
}
use gpu_batch_crypto.HttpAccess.Invariant.{IsConserved, IsBalanced, empty_db, empty-IsConserved}
use gpu_batch_crypto.HttpAccess.Conserve.{
  IsReady, IsComplete, seed-IsConserved, revoke-IsConserved, issue_commit-IsConserved,
  issue_prepare-IsReady, spend-IsConserved, cancel-IsConserved, cancel_many-IsConserved,
}

-- One transaction, of a call that returns or raises; `keys n` is what the n-th call of
-- `keys.sign` gives.
pub data Step (keys : ℕ → Sign) (catalog : Catalog) (db db' : Db) : Type 0 where
  seed : (buyer units : Value) → db' ≡ (Ledger.seed buyer units db).1 → Step keys catalog db db'
  revoke : (kid : Text) → db' ≡ (Ledger.revoke kid db).1 → Step keys catalog db db'
  issue :
      (env : Issuing) (n : ℕ) (a : IssueArgs) (p : Prepared)
      → issue_prepare env (keys n) a ≡ ok p
      → db' ≡ (issue_commit p env.later db).1
      → Step keys catalog db db'
  spend :
      (env : Clearing) (r : SpendRequest)
      → db' ≡ (Ledger.spend env catalog r db).1
      → Step keys catalog db db'
  cancel :
      (buyer : Text) (book : Value)
      → db' ≡ (Ledger.cancel buyer book db).1
      → Step keys catalog db db'
  cancel_many :
      (sha256 : Bytes → Bytes) (r : CancelRequest)
      → db' ≡ (Ledger.cancel_many sha256 r db).1
      → Step keys catalog db db'

-- The databases that transactions lead to, from one with the schema and no rows.
pub data Reach (keys : ℕ → Sign) (catalog : Catalog) : Db → Type 0 where
  start : Reach keys catalog empty_db
  next : {db db' : Db} → Reach keys catalog db → Step keys catalog db db' → Reach keys catalog db'

module _ (keys : ℕ → Sign) (catalog : Catalog) (complete : (n : ℕ) → IsComplete (keys n)) where
  Step-IsConserved : {db db' : Db} → Step keys catalog db db' → IsConserved db → IsConserved db'
  Step-IsConserved {db} (seed buyer units e) inv = rw e (seed-IsConserved db inv buyer units)
  Step-IsConserved {db} (revoke kid e) inv = rw e (revoke-IsConserved db inv kid)
  Step-IsConserved {db} (issue env n a p ready e) inv = rw e (
      issue_commit-IsConserved p db inv env.later
        (Returns-ok IsReady _ (issue_prepare-IsReady env (keys n) a (complete n)) ready))
  Step-IsConserved {db} (spend env r e) inv = rw e (spend-IsConserved env catalog r db inv)
  Step-IsConserved {db} (cancel buyer book e) inv = rw e (cancel-IsConserved db inv buyer book)
  Step-IsConserved {db} (cancel_many sha256 r e) inv =
      rw e (cancel_many-IsConserved db inv sha256 r)

  -- Whatever transactions run, in any order, from an empty database: every account's initial units
  -- are its available, reserved and spent units, the reserved ones are the sum over the buyer's
  -- books and the spent ones the sum over the buyer's receipts, the publisher has accrued the sum
  -- over all receipts and over all accounts, books and receipts are of buyers with an account, and
  -- no two accounts have one buyer and no two books one id. The issuer keys are taken to give a
  -- token for each of the claims.
  pub Reach-IsConserved : {db : Db} → Reach keys catalog db → IsConserved db
  Reach-IsConserved start = empty-IsConserved
  Reach-IsConserved (next r s) = Step-IsConserved s (Reach-IsConserved r)

-- What the audit tests of a row is the invariant of the row.
buyer_conserved-true :
    (db : Db) (a : Account) → IsBalanced db.books db.receipts a → buyer_conserved db a ≡ true
unfolding buyer_conserved
buyer_conserved-true db a h = ground (arith, h.total, h.reserved, h.spent)

-- Sorting the rows changes neither what all satisfy nor their sum.
module _ (p : Account → Bool) where
  all-insert_row :
      (a : Account) (rows : List Account)
      → p a ≡ true
      → all p rows ≡ true
      → all p (insert_row a rows) ≡ true
  unfolding insert_row
  all-insert_row a [] h k = ground arith
  all-insert_row a (b ∷ rows) h k = ground (arith, all-insert_row a rows)

  all-by_buyer :
      (P : Account → Type 0) (rows : List Account)
      → ((a : Account) → P a → p a ≡ true)
      → All P rows
      → all p (by_buyer rows) ≡ true
  unfolding by_buyer
  all-by_buyer P [] f h = refl
  all-by_buyer P (a ∷ rows) f h =
      all-insert_row a (by_buyer rows) (f a h.0) (all-by_buyer P rows f h.1)

sum_spent-insert_row :
    (a : Account) (rows : List Account) → sum_spent (insert_row a rows) ≡ a.spent + sum_spent rows
unfolding sum_spent insert_row select_sum
sum_spent-insert_row a [] = omega arith
sum_spent-insert_row a (b ∷ rows) = elim (Bool-cases (text_le a.buyer b.buyer)) [
  | inl t ↦ ground (arith, t)
  | inr t ↦ ground (arith, t, sum_spent-insert_row a rows)
]

sum_spent-cons :
    (a : Account) (rows : List Account) → sum_spent (a ∷ rows) ≡ a.spent + sum_spent rows
unfolding sum_spent select_sum
sum_spent-cons a rows = refl

sum_spent-by_buyer : (rows : List Account) → sum_spent (by_buyer rows) ≡ sum_spent rows
unfolding by_buyer
sum_spent-by_buyer [] = refl
sum_spent-by_buyer (a ∷ rows) =
    omega (
      arith,
      sum_spent-insert_row a (by_buyer rows),
      sum_spent-cons a rows,
      sum_spent-by_buyer rows,
    )

-- What an audit that finds no discrepancy returns.
abbrev pub report : Db → Report
report db = record {
  accounts = by_buyer db.accounts;
  receipts = length db.receipts;
  publisher_accrued = db.accrued;
  books = length db.books;
}

audit-total : (db : Db) → IsConserved db → Ledger.audit db ≡ (ok (report db), db)
unfolding Ledger.audit Ledger.audit_body transaction
audit-total db inv = ground (
  arith,
  all-by_buyer (buyer_conserved db) (IsBalanced db.books db.receipts) db.accounts
      (buyer_conserved-true db) inv.balances,
  sum_spent-by_buyer db.accounts,
  inv.spending,
  inv.accrual,
)

-- After any transactions the audit finds no discrepancy: it returns the sorted accounts with the
-- numbers of receipts and books and what the publisher has accrued, and changes nothing.
pub audit-Reach :
    (keys : ℕ → Sign) (catalog : Catalog)
    → ((n : ℕ) → IsComplete (keys n))
    → {db : Db} → Reach keys catalog db
    → Ledger.audit db ≡ (ok (report db), db)
audit-Reach keys catalog complete {db} r =
    audit-total db (Reach-IsConserved keys catalog complete r)
