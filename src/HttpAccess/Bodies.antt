-- ===== src/HttpAccess/Bodies.antt =====
-- The statements and the transactions of the ledger, taken apart.
use gpu_batch_crypto.Prelude.{
  ℕ, ◌≡◌, refl, Bool, true, false, Option, none, some, List, [], ◌∷◌, ◌++◌, Text, Result, ok, err,
  Returns, any, arith, Option-cases, inl, inr,
}
use gpu_batch_crypto.Sql.{update_where}
use gpu_batch_crypto.HttpAccess.Checks.{Error, Denial}
use gpu_batch_crypto.HttpAccess.Tables.{
  Account, Book, Item, Issue, Spending, Cancellation, Db, of_buyer, of_id, update_accounts,
  update_books, insert_account, insert_book, insert_item, insert_items, insert_issue,
  insert_receipt, insert_cancellation,
}
use gpu_batch_crypto.HttpAccess.Ledger.{
  Body, written, or_raise, transaction, unless_prior, with_args,
}

pub written-ok : (o : Option Db) {db : Db} → written o ≡ ok db → o ≡ some db
written-ok none h = cc
written-ok (some x) h = cc

pub written-Returns :
    (P : Db → Type 0) (o : Option Db) → ((db : Db) → o ≡ some db → P db) → Returns P (written o)
written-Returns P none h = tt
written-Returns P (some db) h = h db refl

pub or_raise-ok :
    {A : Type 0} (o : Option A) (d : Denial) {a : A} → or_raise o d ≡ ok a → o ≡ some a
or_raise-ok none d h = cc
or_raise-ok (some x) d h = cc

-- What holds before and after the body holds after the transaction.
pub transaction-Returns :
    {A : Type 0} (P : Db → Type 0) (body : Body A) (db : Db)
    → P db
    → Returns (λ (r : A × Db). P r.1) (body db)
    → P (transaction body db).1
unfolding transaction
transaction-Returns {A} P body db before after = go (body db) after
  where
    go :
        (r : Result Error (A × Db))
        → Returns (λ (r : A × Db). P r.1) r
        → P
            (elim r as (λ _. Result Error A × Db) [
              | ok x ↦ (ok (x.0), x.1)
              | err e ↦ (err e, db)
            ]).1
    go (ok x) h = h
    go (err e) h = before

pub unless_prior-Returns :
    {A : Type 0} (P : Db → Type 0) (earlier : Option A) (body : Body A) (db : Db)
    → P db
    → Returns (λ (r : A × Db). P r.1) (body db)
    → Returns (λ (r : A × Db). P r.1) (unless_prior earlier body db)
unless_prior-Returns P none body db before after = after
unless_prior-Returns P (some a) body db before after = before

pub with_args-keeps :
    {A B : Type 0} (P : Db → Type 0) (r : Result Error A) (f : A → Db → Result Error B × Db)
    (db : Db)
    → P db
    → ((a : A) → r ≡ ok a → P (f a db).1)
    → P (with_args r f db).1
with_args-keeps P (ok a) f db before h = h a refl
with_args-keeps P (err e) f db before h = before

module _ (db : Db) {db' : Db} where
  pub update_accounts-inv :
      (g : Account → Option Account) (p : Account → Bool)
      → update_accounts g p db ≡ some db'
      → (accounts : List Account) × (update_where p g db.accounts ≡ some accounts)
        × (db' ≡ record db { accounts = accounts })
  unfolding update_accounts
  update_accounts-inv g p h = elim (Option-cases (update_where p g db.accounts)) [
    | inl e ↦ absurd (ground (arith, e))
    | inr (accounts, e) ↦ (accounts, e, ground (arith, e))
  ]

  pub update_books-inv :
      (g : Book → Option Book) (id : Text)
      → update_books g id db ≡ some db'
      → (books : List Book) × (update_where (of_id id) g db.books ≡ some books)
        × (db' ≡ record db { books = books })
  unfolding update_books
  update_books-inv g id h = elim (Option-cases (update_where (of_id id) g db.books)) [
    | inl e ↦ absurd (ground (arith, e))
    | inr (books, e) ↦ (books, e, ground (arith, e))
  ]

  pub insert_account-inv :
      (buyer : Text) (n : ℕ)
      → insert_account buyer n db ≡ some db'
      → (any (of_buyer buyer) db.accounts ≡ false)
        × (db' ≡ record db {
          accounts =
              db.accounts
              ++ record { buyer = buyer; initial = n; available = n; reserved = 0; spent = 0 } ∷ [];
        })
  unfolding insert_account
  insert_account-inv buyer n h = (ground arith, ground arith)

  pub insert_book-inv :
      (b : Book)
      → insert_book b db ≡ some db'
      → (any (of_id b.id) db.books ≡ false)
        × (any (of_buyer b.buyer) db.accounts ≡ true)
        × (db' ≡ record db { books = db.books ++ b ∷ [] })
  unfolding insert_book
  insert_book-inv b h = (ground arith, ground arith, ground arith)

  insert_item-inv : (i : Item) → insert_item i db ≡ some db' → db' ≡ record db { items = db'.items }
  unfolding insert_item
  insert_item-inv i h = ground arith

  pub insert_issue-inv :
      (r : Issue) → insert_issue r db ≡ some db' → db' ≡ record db { issues = db.issues ++ r ∷ [] }
  unfolding insert_issue
  insert_issue-inv r h = ground arith

  pub insert_receipt-inv :
      (r : Spending)
      → insert_receipt r db ≡ some db'
      → (any (of_buyer r.buyer) db.accounts ≡ true)
        × (db' ≡ record db { receipts = db.receipts ++ r ∷ [] })
  unfolding insert_receipt
  insert_receipt-inv r h = (ground arith, ground arith)

  pub insert_cancellation-inv :
      (r : Cancellation)
      → insert_cancellation r db ≡ some db'
      → (any (of_buyer r.buyer) db.accounts ≡ true)
        × (db' ≡ record db { cancellations = db.cancellations ++ r ∷ [] })
  unfolding insert_cancellation
  insert_cancellation-inv r h = (ground arith, ground arith)

pub insert_items-inv :
    (is : List Item) (db : Db) {db' : Db}
    → insert_items is db ≡ some db'
    → db' ≡ record db { items = db'.items }
unfolding insert_items
insert_items-inv [] db h = cc
insert_items-inv (i ∷ is) db {db'} h = elim (Option-cases (insert_item i db)) [
  | inl e ↦ absurd (ground (arith, e))
  | inr (db₁, e) ↦
      ground
        (arith, insert_item-inv db i e, insert_items-inv is db₁ {db' = db'} (ground (arith, e)))
]
