-- ===== src/HttpAccess/Invariant.antt =====
-- The invariant of the ledger's database: every balance is what the books and the receipts make
-- it, the publisher has accrued what was spent, and rows refer to accounts that are there.
use gpu_batch_crypto.Prelude.{
  ℕ, ◌+◌, ◌≡◌, ◌∙◌, sym, true, false, Option, some, List, [], Text, text_eq, arith, any, All,
  All-mono,
}
use gpu_batch_crypto.Sql.{select_sum, update_where}
use gpu_batch_crypto.Sql.Laws.{Single}
use gpu_batch_crypto.Sql.Update.{All-update, any-update, Single-update, select_sum-update}
use gpu_batch_crypto.Sql.Narrow.{select-any, update-some}
use gpu_batch_crypto.HttpAccess.Tables.{Account, Book, Spending, Db, of_buyer, of_id}
use gpu_batch_crypto.HttpAccess.Ledger.{sum_remaining, sum_redeemed, sum_units, sum_spent}

pub record IsBalanced (books : List Book) (receipts : List Spending) (a : Account) : Type 0 where
  pub total : a.initial ≡ a.available + a.reserved + a.spent
  pub reserved : a.reserved ≡ sum_remaining a.buyer books
  pub spent : a.spent ≡ sum_redeemed a.buyer receipts

abbrev pub HasAccount : List Account → Text → Type 0
HasAccount accounts buyer = any (of_buyer buyer) accounts ≡ true

pub record IsSettled (accounts : List Account) (books : List Book) (receipts : List Spending)
    (accrued : ℕ) : Type 0 where
  pub balances : All (IsBalanced books receipts) accounts
  pub spending : sum_spent accounts ≡ sum_units receipts
  pub accrual : accrued ≡ sum_units receipts
  pub buyers : (k : Text) → Single (of_buyer k) accounts
  pub book_buyers : All (λ (b : Book). HasAccount accounts b.buyer) books
  pub receipt_buyers : All (λ (r : Spending). HasAccount accounts r.buyer) receipts
  pub ids : (k : Text) → Single (of_id k) books

abbrev pub IsConserved : Db → Type 0
IsConserved db = IsSettled db.accounts db.books db.receipts db.accrued

-- A database with no rows but the publisher's.
abbrev pub empty_db : Db
empty_db = record {
  accounts = [];
  books = [];
  items = [];
  issues = [];
  receipts = [];
  revoked = [];
  cancellations = [];
  accrued = 0;
}

pub empty-IsConserved : IsConserved empty_db
unfolding sum_spent sum_units select_sum
empty-IsConserved = record {
  balances = tt;
  spending = omega arith;
  accrual = omega arith;
  buyers = λ k. tt;
  book_buyers = tt;
  receipt_buyers = tt;
  ids = λ k. tt;
}

-- The sums of the other buyers stay as they are.
abbrev pub Others : Text → List Book → List Book → List Spending → List Spending → Type 0
Others k books books' receipts receipts' =
    (b : Text)
    → text_eq b k ≡ false
    → (sum_remaining b books' ≡ sum_remaining b books)
      × (sum_redeemed b receipts' ≡ sum_redeemed b receipts)

-- The UPDATE makes no account and takes none away.
pub any-update_accounts :
    (k : Text) (g : Account → Option Account) (accounts : List Account) {accounts' : List Account}
    → ((x y : Account) → g x ≡ some y → y.buyer ≡ x.buyer)
    → update_where (of_buyer k) g accounts ≡ some accounts'
    → (b : Text) → any (of_buyer b) accounts' ≡ any (of_buyer b) accounts
any-update_accounts k g accounts same wrote b =
    any-update (of_buyer b) (of_buyer k) g accounts (λ x y e. ground (arith, same x y e)) wrote

-- One account's row is moved along with the books and the receipts; n units are newly spent.
module _ {accounts : List Account} {books : List Book} {receipts : List Spending} {accrued : ℕ}
    (inv : IsSettled accounts books receipts accrued) (k : Text) (g : Account → Option Account)
    (n : ℕ) (books' : List Book) (receipts' : List Spending)
    (same : (x y : Account) → g x ≡ some y → y.buyer ≡ x.buyer)
    (spends : (x y : Account) → g x ≡ some y → y.spent ≡ x.spent + n)
    (settles : (x y : Account)
      → text_eq x.buyer k ≡ true
      → g x ≡ some y
      → IsBalanced books receipts x
      → IsBalanced books' receipts' y)
    (others : Others k books books' receipts receipts') (known : HasAccount accounts k)
    {accounts' : List Account} (wrote : update_where (of_buyer k) g accounts ≡ some accounts') where
  balances_after : All (IsBalanced books' receipts') accounts'
  balances_after =
      All-update (IsBalanced books receipts) (IsBalanced books' receipts') (of_buyer k) g accounts
        (λ x t ok. record {
          total = ok.total;
          reserved = ok.reserved ∙ sym ((others x.buyer t).0);
          spent = ok.spent ∙ sym ((others x.buyer t).1);
        })
        settles inv.balances wrote

  same_key : (b : Text) (x y : Account) → g x ≡ some y → of_buyer b y ≡ of_buyer b x
  same_key b x y e = ground (arith, same x y e)

  has_account : (b : Text) → HasAccount accounts b → HasAccount accounts' b
  has_account b h = any-update_accounts k g accounts same wrote b ∙ h

  spent_after : sum_spent accounts' ≡ sum_spent accounts + n
  unfolding sum_spent
  spent_after =
      let (x, found) = select-any (of_buyer k) accounts known in
      let (y, moved) = update-some (of_buyer k) g accounts found wrote in
      omega (
        arith,
        spends x y moved,
        select_sum-update (λ _. true) (of_buyer k) (λ (a : Account). a.spent) g accounts
            (inv.buyers k) found moved wrote,
      )

  pub rebalance :
      sum_units receipts' ≡ sum_units receipts + n
      → All (λ (b : Book). HasAccount accounts b.buyer) books'
      → All (λ (r : Spending). HasAccount accounts r.buyer) receipts'
      → ((k : Text) → Single (of_id k) books')
      → IsSettled accounts' books' receipts' (accrued + n)
  rebalance units book_buyers receipt_buyers ids = record {
    balances = balances_after;
    spending = omega (arith, spent_after, units, inv.spending);
    accrual = omega (arith, units, inv.accrual);
    buyers =
        λ b. Single-update (of_buyer b) (of_buyer k) g accounts (same_key b) (inv.buyers b) wrote;
    book_buyers = All-mono _ _ books' (λ b h. has_account b.buyer h) book_buyers;
    receipt_buyers = All-mono _ _ receipts' (λ r h. has_account r.buyer h) receipt_buyers;
    ids = ids;
  }
