-- ===== src/HttpAccess/Grows.antt =====
-- What no transaction of the ledger (examples/http_access/ledger.py) takes back: receipts stay,
-- and a book that was closed stays closed.
pub mod Cancel
pub mod Spend
use gpu_batch_crypto.Prelude.{
  ℕ, ◌≡◌, refl, sym, ap, ◌∙◌, ◌>>=◌, Bool, inl, inr, true, Option, none, some, List, [], ◌∷◌, Text,
  text_eq, text_eq_sound, Result, Returns, Returns-mono, arith, any, All, All-append, Option-cases,
}
use gpu_batch_crypto.Sql.{update_where}
use gpu_batch_crypto.Sql.Laws.{any-append}
use gpu_batch_crypto.Sql.Update.{any-update, All-update}
use gpu_batch_crypto.HttpAccess.Checks.{Error}
use gpu_batch_crypto.HttpAccess.Ledger.{written, transaction}
use gpu_batch_crypto.HttpAccess.Tables.{
  Account, Book, Spending, Db, of_id, consume_row, close_row, update_accounts, update_books,
  close_books, insert_book, insert_receipt,
}
use gpu_batch_crypto.HttpAccess.Bodies.{
  update_accounts-inv, update_books-inv, insert_book-inv, insert_receipt-inv, transaction-Returns,
}

-- There is a book with that id, and such books are closed.
abbrev pub Shut : Text → List Book → Type 0
Shut id books =
    (any (of_id id) books ≡ true)
    × All (λ (b : Book). text_eq b.id id ≡ true → b.closed ≡ true) books

pub record Grows (db db' : Db) : Type 0 where
  pub receipts : (p : Spending → Bool) → any p db.receipts ≡ true → any p db'.receipts ≡ true
  pub shut : (id : Text) → Shut id db.books → Shut id db'.books

pub Grows-refl : (db : Db) → Grows db db
Grows-refl db = record { receipts = λ p h. h; shut = λ id h. h }

pub Grows-trans : (db₁ db₂ db₃ : Db) → Grows db₁ db₂ → Grows db₂ db₃ → Grows db₁ db₃
Grows-trans db₁ db₂ db₃ g h = record {
  receipts = λ p k. h.receipts p (g.receipts p k);
  shut = λ id k. h.shut id (g.shut id k);
}

-- Other tables changed.
pub Grows-same : (db db' : Db) → db'.books ≡ db.books → db'.receipts ≡ db.receipts → Grows db db'
Grows-same db db' e f = record { receipts = λ p h. rw f h; shut = λ id h. rw e h }

-- An assignment that keeps the id and opens nothing.
abbrev pub Closing : (Book → Option Book) → Type 0
Closing g = (x y : Book) → g x ≡ some y → (y.id ≡ x.id) × (x.closed ≡ true → y.closed ≡ true)

pub consume_row-Closing : (n : ℕ) → Closing (consume_row n)
unfolding consume_row
consume_row-Closing n x y h = (ground (arith, h), λ k. ground (arith, h, k))

pub close_row-Closing : Closing close_row
unfolding close_row
close_row-Closing x y h = (ground (arith, h), λ k. ground (arith, h))

-- After it, the rows that the statement is about.
module _ (g : Book → Option Book) (closing : Closing g) (k id : Text) where
  update-Shut :
      (books : List Book) {books' : List Book}
      → update_where (of_id k) g books ≡ some books'
      → Shut id books
      → Shut id books'
  update-Shut books h (there, all) =
      let same : (x y : Book) → g x ≡ some y → of_id id y ≡ of_id id x =
        λ x y e. ap (λ t. text_eq t id) ((closing x y e).0) in
      let Shuts : Book → Type 0 = λ b. text_eq b.id id ≡ true → b.closed ≡ true in
      (
        any-update (of_id id) (of_id k) g books same h ∙ there,
        All-update Shuts Shuts (of_id k) g books (λ x _ c. c)
            (λ x y _ e c t. (closing x y e).1 (c (sym (same x y e) ∙ t))) all h,
      )

module _ (db : Db) {db' : Db} where
  pub update_accounts-Grows :
      (g : Account → Option Account) (p : Account → Bool)
      → update_accounts g p db ≡ some db'
      → Grows db db'
  update_accounts-Grows g p h =
      let (_, _, same) = update_accounts-inv db g p h in
      Grows-same db db' (ap (λ (d : Db). d.books) same) (ap (λ (d : Db). d.receipts) same)

  pub update_books-Grows :
      (g : Book → Option Book) (k : Text)
      → Closing g
      → update_books g k db ≡ some db'
      → Grows db db'
  update_books-Grows g k closing h =
      let (_, wrote, same) = update_books-inv db g k h in
      rw same
        (record { receipts = λ p k. k; shut = λ id s. update-Shut g closing k id db.books wrote s })

  pub insert_book-Grows : (b : Book) → insert_book b db ≡ some db' → Grows db db'
  insert_book-Grows b h =
      let (fresh, _, same) = insert_book-inv db b h in
      rw same (record {
        receipts = λ p k. k;
        shut = λ id (there, all). (
          any-append (of_id id) db.books (b ∷ []) ∙ ground (arith, there),
          All-append (λ (b : Book). text_eq b.id id ≡ true → b.closed ≡ true) db.books (b ∷ []) all
              (
                (λ t.
                    let e : any (of_id b.id) db.books ≡ true = rw (text_eq_sound b.id id t) there in
                    absurd (cc)),
                tt,
              ),
        );
      })

  pub insert_receipt-Grows : (r : Spending) → insert_receipt r db ≡ some db' → Grows db db'
  insert_receipt-Grows r h =
      let (_, same) = insert_receipt-inv db r h in
      rw same (record {
        receipts = λ p k. any-append p db.receipts (r ∷ []) ∙ ground (arith, k);
        shut = λ id s. s;
      })

pub close_books-Grows :
    (ids : List Text) (db : Db) {db' : Db} → close_books ids db ≡ some db' → Grows db db'
unfolding close_books
close_books-Grows [] db {db'} h = let same : db ≡ db' = cc in rw (← same) (Grows-refl db)
close_books-Grows (id ∷ ids) db {db'} h = elim (Option-cases (update_books close_row id db)) [
  | inl e ↦ absurd (ground (arith, e, h))
  | inr (db₁, e) ↦
      Grows-trans db db₁ db' (update_books-Grows db close_row id close_row-Closing e)
        (close_books-Grows ids db₁ (ground (arith, e, h)))
]

-- What comes after a statement that writes.
module _ {A : Type 0} (db : Db) (f : Db → Result Error (A × Db)) where
  pub written-Grows :
      (o : Option Db)
      → ((db₁ : Db) → o ≡ some db₁ → Grows db db₁)
      → ((db₁ : Db) → Returns (λ (x : A × Db). Grows db₁ x.1) (f db₁))
      → Returns (λ (x : A × Db). Grows db x.1) (written o >>= f)
  written-Grows none g k = tt
  written-Grows (some db₁) g k =
      Returns-mono (λ (x : A × Db). Grows db₁ x.1) (λ (x : A × Db). Grows db x.1) (f db₁)
        (λ x h. Grows-trans db db₁ x.1 (g db₁ refl) h) (k db₁)

-- A body that keeps what must stay.
abbrev pub Body-Grows : {A : Type 0} → (Db → Result Error (A × Db)) → Type 0
Body-Grows {A} body = (db : Db) → Returns (λ (x : A × Db). Grows db x.1) (body db)

pub transaction-Grows :
    {A : Type 0} (body : Db → Result Error (A × Db))
    → Body-Grows body
    → (db : Db) → Grows db (transaction body db).1
transaction-Grows body h db = transaction-Returns (Grows db) body db (Grows-refl db) (h db)
