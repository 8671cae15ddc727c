-- ===== src/HttpAccess/Conserve.antt =====
-- Every transaction of the ledger keeps the invariant.
mod Issue
mod Spend
mod Cancel
pub use Issue.{
  IsReady, IsComplete, response_units, seed-IsConserved, revoke-IsConserved,
  issue_commit-IsConserved, issue_prepare-IsReady,
}
unfoldable pub use Issue.{response_units}
pub use Spend.{spend-IsConserved}
pub use Cancel.{Closed, cancel-IsConserved, cancel_many-IsConserved}
