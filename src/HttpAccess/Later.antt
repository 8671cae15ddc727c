-- ===== src/HttpAccess/Later.antt =====
-- What any further transactions of the ledger (examples/http_access/ledger.py) keep.
use gpu_batch_crypto.Prelude.{ℕ}
use gpu_batch_crypto.HttpAccess.Checks.{Catalog}
use gpu_batch_crypto.HttpAccess.Tables.{Db}
use gpu_batch_crypto.HttpAccess.Ledger.{Sign}
use gpu_batch_crypto.HttpAccess.Grows.{Grows, Grows-refl, Grows-trans}
use gpu_batch_crypto.HttpAccess.Reach
use gpu_batch_crypto.HttpAccess.Reach.{Step}
use gpu_batch_crypto.HttpAccess.Grows.Cancel.{
  seed-Grows, revoke-Grows, cancel-Grows, cancel_many-Grows,
}
use gpu_batch_crypto.HttpAccess.Grows.Spend.{issue_commit-Grows, spend-Grows}

-- Any transactions after those that led to the first database.
pub data Later (keys : ℕ → Sign) (catalog : Catalog) (db : Db) : Db → Type 0 where
  now : Later keys catalog db db
  next :
      {db₁ db₂ : Db}
      → Later keys catalog db db₁
      → Step keys catalog db₁ db₂
      → Later keys catalog db db₂

module _ (keys : ℕ → Sign) (catalog : Catalog) where
  Step-Grows : {db db' : Db} → Step keys catalog db db' → Grows db db'
  Step-Grows {db} (Reach.seed buyer units e) = rw e (seed-Grows buyer units db)
  Step-Grows {db} (Reach.revoke kid e) = rw e (revoke-Grows kid db)
  Step-Grows {db} (Reach.issue env n a p ready e) = rw e (issue_commit-Grows p env.later db)
  Step-Grows {db} (Reach.spend env r e) = rw e (spend-Grows env catalog r db)
  Step-Grows {db} (Reach.cancel buyer book e) = rw e (cancel-Grows buyer book db)
  Step-Grows {db} (Reach.cancel_many sha256 r e) = rw e (cancel_many-Grows sha256 r db)

  pub Later-Grows : (db : Db) {db' : Db} → Later keys catalog db db' → Grows db db'
  Later-Grows db now = Grows-refl db
  Later-Grows db (next {db₁} {db₂} l s) = Grows-trans db db₁ db₂ (Later-Grows db l) (Step-Grows s)
