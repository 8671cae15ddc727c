-- ===== src/AccessBook/Clearing/Audit.antt =====
-- `audit`: recomputes every balance from the books and the redemptions.
use gpu_batch_crypto.Prelude.{
  ℕ, ◌+◌, Bool, true, false, ◌&&◌, List, [], ◌∷◌, Text, text_eq, Result, ok, err, ◌==◌,
  if◌then◌else◌, length, all,
}
use gpu_batch_crypto.Python.Json.{text_le}
use gpu_batch_crypto.Sql.{select_sum}
use gpu_batch_crypto.AccessBook.Checks.{Error, buyer_conservation, publisher_conservation}
use gpu_batch_crypto.AccessBook.Tables.{Account, Book, Redemption, Publisher, Db}
use gpu_batch_crypto.AccessBook.Exec.{Exec, pure, gets, lift, transaction, ◌>>=◌, ◌>>◌}

-- SELECT COALESCE(SUM(remaining),0) FROM books WHERE buyer=?
unfoldable pub sum_remaining : Text → List Book → ℕ
sum_remaining buyer = select_sum (λ b. text_eq b.buyer buyer) (λ b. b.remaining)

-- SELECT COALESCE(SUM(units),0) FROM redemptions WHERE buyer=?
unfoldable pub sum_redeemed : Text → List Redemption → ℕ
sum_redeemed buyer = select_sum (λ r. text_eq r.buyer buyer) (λ r. r.units)

-- SELECT COALESCE(SUM(units),0) FROM redemptions WHERE publisher=?
unfoldable pub sum_accrued : Text → List Redemption → ℕ
sum_accrued id = select_sum (λ r. text_eq r.publisher id) (λ r. r.units)

unfoldable pub buyer_conserved : Db → Account → Bool
buyer_conserved db a =
    a.initial == a.available + sum_remaining a.buyer db.books + sum_redeemed a.buyer db.redemptions
    && a.reserved == sum_remaining a.buyer db.books
    && a.redeemed == sum_redeemed a.buyer db.redemptions

unfoldable pub publisher_conserved : Db → Publisher → Bool
publisher_conserved db p = p.accrued == sum_accrued p.id db.redemptions

unfoldable pub insert_account_row : Account → List Account → List Account
insert_account_row a [] = a ∷ []
insert_account_row a (b ∷ bs) =
    let rest = b ∷ insert_account_row a bs in if text_le a.buyer b.buyer then a ∷ b ∷ bs else rest

-- ORDER BY buyer
unfoldable pub accounts_by_buyer : List Account → List Account
unfolding insert_account_row
accounts_by_buyer [] = []
accounts_by_buyer (a ∷ rest) = insert_account_row a (accounts_by_buyer rest)

unfoldable pub insert_publisher_row : Publisher → List Publisher → List Publisher
insert_publisher_row p [] = p ∷ []
insert_publisher_row p (q ∷ qs) =
    let rest = q ∷ insert_publisher_row p qs in if text_le p.id q.id then p ∷ q ∷ qs else rest

-- ORDER BY id
unfoldable pub publishers_by_id : List Publisher → List Publisher
unfolding insert_publisher_row
publishers_by_id [] = []
publishers_by_id (p ∷ ps) = insert_publisher_row p (publishers_by_id ps)

pub record AuditReport : Type 0 where
  pub accounts : List Account
  pub publishers : List Publisher
  pub books : ℕ
  pub redemptions : ℕ

unfoldable pub unless : Bool → Error → Result Error (Unit {0})
unless true e = ok tt
unless false e = err e

unfoldable pub audit : Exec AuditReport
unfolding accounts_by_buyer publishers_by_id unless
audit = transaction do
  db ← gets (λ db. db)
  let accounts = accounts_by_buyer db.accounts
  lift (unless (all (buyer_conserved db) accounts) buyer_conservation)
  let publishers = publishers_by_id db.publishers
  lift (unless (all (publisher_conserved db) publishers) publisher_conservation)
  pure (record {
    accounts = accounts;
    publishers = publishers;
    books = length db.books;
    redemptions = length db.redemptions;
  })
