-- ===== src/HttpAccess/Ledger/Audit.antt =====
-- `Ledger.audit` of examples/http_access/ledger.py.
use gpu_batch_crypto.Prelude.{
  ℕ, ◌+◌, Bool, true, ◌&&◌, not, List, [], ◌∷◌, Text, text_eq, Result, ok, ◌>>◌, raise_if, ◌==◌,
  if◌then◌else◌, length, all,
}
use gpu_batch_crypto.Python.Json.{text_le}
use gpu_batch_crypto.Sql.{select_sum}
use gpu_batch_crypto.HttpAccess.Checks.{Error, buyer_conservation, publisher_conservation}
use gpu_batch_crypto.HttpAccess.Tables.{Account, Book, Spending, Db}
use gpu_batch_crypto.HttpAccess.Ledger.Exec.{transaction}

-- SELECT COALESCE(SUM(remaining),0) FROM books WHERE buyer=?
unfoldable pub sum_remaining : Text → List Book → ℕ
sum_remaining buyer = select_sum (λ b. text_eq b.buyer buyer) (λ b. b.remaining)

-- SELECT COALESCE(SUM(units),0) FROM receipts WHERE buyer=?
unfoldable pub sum_redeemed : Text → List Spending → ℕ
sum_redeemed buyer = select_sum (λ r. text_eq r.buyer buyer) (λ r. r.units)

-- SELECT COALESCE(SUM(units),0) FROM receipts
unfoldable pub sum_units : List Spending → ℕ
sum_units = select_sum (λ _. true) (λ r. r.units)

-- sum(a["spent"] for a in accounts)
unfoldable pub sum_spent : List Account → ℕ
sum_spent = select_sum (λ _. true) (λ a. a.spent)

unfoldable pub insert_row : Account → List Account → List Account
insert_row a [] = a ∷ []
insert_row a (b ∷ bs) =
    let rest = b ∷ insert_row a bs in if text_le a.buyer b.buyer then a ∷ b ∷ bs else rest

-- ORDER BY buyer
unfoldable pub by_buyer : List Account → List Account
unfolding insert_row
by_buyer [] = []
by_buyer (a ∷ rest) = insert_row a (by_buyer rest)

unfoldable pub buyer_conserved : Db → Account → Bool
buyer_conserved db a =
    a.reserved == sum_remaining a.buyer db.books
    && a.spent == sum_redeemed a.buyer db.receipts
    && a.initial == a.available + sum_remaining a.buyer db.books + sum_redeemed a.buyer db.receipts

pub record Report : Type 0 where
  pub accounts : List Account
  pub receipts : ℕ
  pub publisher_accrued : ℕ
  pub books : ℕ

unfoldable pub audit_body : Db → Result Error (Report × Db)
unfolding by_buyer
audit_body db = do
  let accounts = by_buyer db.accounts
  let spent = sum_units db.receipts
  raise_if (not (all (buyer_conserved db) accounts)) buyer_conservation
  raise_if (not (db.accrued == spent && sum_spent accounts == spent)) publisher_conservation
  ok (
    record {
      accounts = accounts;
      receipts = length db.receipts;
      publisher_accrued = db.accrued;
      books = length db.books;
    },
    db,
  )

unfoldable pub audit : Db → Result Error Report × Db
audit = transaction audit_body
