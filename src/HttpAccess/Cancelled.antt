-- ===== src/HttpAccess/Cancelled.antt =====
-- What `Ledger.cancel` of examples/http_access/ledger.py leaves of the book.
use gpu_batch_crypto.Prelude.{
  ℕ, ◌≡◌, refl, ◌∙◌, inl, inr, true, some, List, [], ◌∷◌, Text, text_eq, Result, ok, err, Returns,
  Returns-bind, Returns-ok, arith, any, All, Bool, Bool-cases, Result-cases,
}
use gpu_batch_crypto.Sql.{select_first, update_where}
use gpu_batch_crypto.Sql.Update.{any-update, All-update}
use gpu_batch_crypto.Sql.Narrow.{any_weaken}
use gpu_batch_crypto.HttpAccess.Rows.{close_row-inv, of_id-close_row}
use gpu_batch_crypto.HttpAccess.Bodies.{
  written-ok, or_raise-ok, update_accounts-inv, update_books-inv,
}
use gpu_batch_crypto.Python.Values.{Value}
use gpu_batch_crypto.HttpAccess.Checks.{Error, unknown_book, identifier}
use gpu_batch_crypto.HttpAccess.Tables.{
  Db, of_owner, Book, of_id, of_buyer, release_row, close_row, update_accounts, update_books,
}
use gpu_batch_crypto.HttpAccess.Ledger.{
  transaction, cancel_body, cancel, Body, with_args, written, or_raise,
}
use gpu_batch_crypto.HttpAccess.Grows.{Shut}

-- A body that returned or raised, in a transaction.
module _ {A : Type 0} (body : Body A) (db : Db) where
  pub transaction-ok : {x : A × Db} → body db ≡ ok x → transaction body db ≡ (ok x.0, x.1)
  unfolding transaction
  transaction-ok e = rw e

  pub transaction-err : {e : Error} → body db ≡ err e → transaction body db ≡ (err e, db)
  unfolding transaction
  transaction-err h = rw h

  pub transaction-inv :
      {a : A} {db' : Db} → transaction body db ≡ (ok a, db') → body db ≡ ok (a, db')
  unfolding transaction
  transaction-inv {a} {db'} h = elim (Result-cases (body db)) [
    | inl (e, f) ↦
        let g : ◌≡◌ {A = Result Error A × Db} (err e, db) (ok a, db') = (rw f at h) in absurd (cc)
    | inr (x, f) ↦
        let g : ◌≡◌ {A = Result Error A × Db} (ok (x.0), x.1) (ok a, db') = (rw f at h) in
        ground (arith, f, g)
  ]

pub with_args-inv :
    {A B : Type 0} (r : Result Error A) (f : A → Db → Result Error B × Db) (db : Db) {b : B}
    {db' : Db}
    → with_args r f db ≡ (ok b, db')
    → (a : A) × (r ≡ ok a) × (f a db ≡ (ok b, db'))
with_args-inv (ok a) f db h = (a, refl, h)
with_args-inv {A} {B} (err e) f db {b} {db'} h =
    let g : ◌≡◌ {A = Result Error B × Db} (err e, db) (ok b, db') = h in absurd (cc)

All-trivial : (books : List Book) → All (λ (_ : Book). Unit {0}) books
All-trivial [] = tt
All-trivial (b ∷ bs) = (tt, All-trivial bs)

any-select :
    (p : Book → Bool) (books : List Book) {b : Book}
    → select_first p books ≡ some b
    → any p books ≡ true
unfolding select_first
any-select p [] h = absurd (ground (arith, h))
any-select p (x ∷ xs) {b} h = elim (Bool-cases (p x)) [
  | inl t ↦ ground (arith, t)
  | inr t ↦ ground (arith, t, any-select p xs {b = b} (ground (arith, t, h)))
]

-- After `cancel` every row with the book's id is closed.
closed-Shut :
    (book : Text) (books : List Book) {books' : List Book}
    → update_where (of_id book) close_row books ≡ some books'
    → any (of_id book) books ≡ true
    → Shut book books'
closed-Shut book books wrote there =
    let Shuts : Book → Type 0 = λ b. text_eq b.id book ≡ true → b.closed ≡ true in
    (
      any-update (of_id book) (of_id book) close_row books (λ x y e. of_id-close_row x book e) wrote
          ∙ there,
      All-update (λ _. Unit {0}) Shuts (of_id book) close_row books (λ x f _ t. absurd (cc))
          (λ x y _ e _ _. ground (arith, close_row-inv x e)) (All-trivial books) wrote,
    )

cancel_body-Shut :
    (buyer book : Text) (db : Db)
    → Returns (λ (x : ℕ × Db). Shut book (x.1.books)) (cancel_body buyer book db)
unfolding cancel_body
cancel_body-Shut buyer book db =
    Returns-bind P (or_raise (select_first (of_owner book buyer) db.books) unknown_book) _ (λ b e₀.
      Returns-bind P (written (update_accounts (release_row b.remaining) (of_buyer buyer) db)) _
        (λ db₁ e₁.
          Returns-bind P (written (update_books close_row book db₁)) _
            (λ db₂ e₂. shut b (or_raise-ok _ unknown_book e₀) (written-ok _ e₁) (written-ok _ e₂))))
  where
    P : ℕ × Db → Type 0
    P x = Shut book (x.1.books)

    shut :
        (b : Book) {db₁ db₂ : Db}
        → select_first (of_owner book buyer) db.books ≡ some b
        → update_accounts (release_row b.remaining) (of_buyer buyer) db ≡ some db₁
        → update_books close_row book db₁ ≡ some db₂
        → Shut book db₂.books
    shut b {db₁} {db₂} found e₁ e₂ =
        let (_, _, s₁) = update_accounts-inv db (release_row b.remaining) (of_buyer buyer) e₁ in
        let (books', wrote, s₂) = update_books-inv db₁ close_row book e₂ in
        let there : any (of_id book) db.books ≡ true =
          any_weaken (of_owner book buyer) (of_id book) (λ x t. ground (arith, t)) db.books
            (any-select (of_owner book buyer) db.books found) in
        let same : db₁.books ≡ db.books = ground (arith, s₁) in
        rw s₂ (closed-Shut book db₁.books wrote (rw same there))

identifier-str : (t : Text) {u : Text} → identifier (Value.str t) ≡ ok u → u ≡ t
unfolding identifier
identifier-str t h = ground (arith, h)

pub cancel-Shut :
    (buyer book : Text) (db : Db) {db' : Db} {n : ℕ}
    → cancel buyer (Value.str book) db ≡ (ok n, db')
    → Shut book db'.books
unfolding cancel
cancel-Shut buyer book db {db'} {n} h =
    let (id, named, ran) =
      with_args-inv (identifier (Value.str book)) (λ id. transaction (cancel_body buyer id)) db h in
    let body : cancel_body buyer book db ≡ ok (n, db') =
      transaction-inv (cancel_body buyer book) db (rw (identifier-str book named) at ran) in
    Returns-ok (λ (x : ℕ × Db). Shut book (x.1.books)) _ (cancel_body-Shut buyer book db) body
