-- ===== src/HttpAccess/Ledger.antt =====
-- `class Ledger` of examples/http_access/ledger.py, method by method. A method checks its
-- arguments, which are of any type, and then runs one transaction on the database; `issue` runs
-- two, and signs between them.
mod Exec
mod Requests
mod Issue
mod Spend
mod Cancel
mod Audit
pub use Exec.*
unfoldable pub use Exec.{transaction, prior}
pub use Requests.*
unfoldable pub use Requests.{
  bounded_list, entry, check_group, check_groups, check_issue, check_spend, check_cancel,
}
pub use Issue.*
unfoldable pub use Issue.{
  check_seed, seed_body, seed, revoke, manifest_units, total_units, draw_ids, claims, responses,
  issue_prepare, new_book, insert_books, row_count, issue_new, commit_body, issue_commit,
  issue_read, issue_unless, issue, to_item, issue_row, issue_row_of, all_claims, signed,
}
pub use Spend.*
unfoldable pub use Spend.{
  is_usable, in_scope, check_book, charge, new_receipt, receipt_row, spend_new, spend_body, spend,
}
pub use Cancel.*
unfoldable pub use Cancel.{
  cancellation_row, cancel_body, cancel, held_units, cancel_new, cancel_many_body, cancel_many,
}
pub use Audit.*
unfoldable pub use Audit.{
  sum_remaining, sum_redeemed, sum_units, sum_spent, insert_row, by_buyer, buyer_conserved,
  audit_body, audit,
}
