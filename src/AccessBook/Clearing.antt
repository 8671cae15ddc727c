-- ===== src/AccessBook/Clearing.antt =====
-- `class Clearing` of examples/access_book/engine.py, method by method. A method checks its
-- arguments, which are of any type, and then runs on the values: `issue` is `check_issue` and
-- `issue_checked`, and so on.
mod Requests
mod Issue
mod Spend
mod Audit
pub use Requests.*
unfoldable pub use Requests.{
  insert_text, sorted, has_duplicate, resource_list, check_resources, check_issue, check_activate,
  check_redeem,
}
unfoldable pub use Issue.{
  covers, key_ok, current_offers, total_units, expiry, to_item, new_book, book_claims,
  issue_checked, issue, seed_simulated_balance, set_offer, revoke_key, same_issue, issue_new,
}
unfoldable pub use Spend.{
  admit, activate_found, activate_unless, new_receipt, new_redemption, same_redemption, close_book,
  open_book, matching_item, activate_checked, activate, redeem_checked, redeem, redeem_new,
  spend_item, release_checked, release, purchase,
}
unfoldable pub use Audit.{
  unless, accounts_by_buyer, publishers_by_id, insert_account_row, insert_publisher_row,
  buyer_conserved, publisher_conserved, audit, sum_remaining, sum_redeemed, sum_accrued,
}
pub use Audit.{AuditReport}
