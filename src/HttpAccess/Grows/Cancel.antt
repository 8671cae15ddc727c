-- ===== src/HttpAccess/Grows/Cancel.antt =====
-- `seed`, `revoke`, `cancel` and `cancel_many` of examples/http_access/ledger.py take nothing back.
use gpu_batch_crypto.Prelude.{ℕ, ◌≡◌, ap, some, Text, Bytes, ok, Returns-bind, arith}
use gpu_batch_crypto.Python.Values.{Value}
use gpu_batch_crypto.Sql.{select_first}
use gpu_batch_crypto.HttpAccess.Checks.{unknown_book, wrong_buyer, identifier}
use gpu_batch_crypto.HttpAccess.Tables.{
  Cancelled, Cancellation, Db, of_buyer, of_owner, release_row, close_row, update_accounts,
  update_books, insert_account, insert_cancellation, close_books, add_revoked,
}
use gpu_batch_crypto.HttpAccess.Ledger.{
  CancelRequest, CancelArgs, or_raise, transaction, check_seed, seed_body, seed, revoke,
  cancel_body, cancel, held_units, cancellation_row, cancel_new, cancel_many_body, cancel_many,
  check_cancel,
}
use gpu_batch_crypto.HttpAccess.Bodies.{
  unless_prior-Returns, with_args-keeps, insert_account-inv, insert_cancellation-inv,
}
use gpu_batch_crypto.HttpAccess.Grows.{
  Body-Grows, transaction-Grows, Grows, Grows-refl, Grows-same, close_row-Closing,
  update_accounts-Grows, update_books-Grows, close_books-Grows, written-Grows,
}

module _ (db : Db) {db' : Db} where
  insert_account-Grows :
      (buyer : Text) (n : ℕ) → insert_account buyer n db ≡ some db' → Grows db db'
  insert_account-Grows buyer n h =
      let (_, same) = insert_account-inv db buyer n h in
      Grows-same db db' (ap (λ (d : Db). d.books) same) (ap (λ (d : Db). d.receipts) same)

pub seed-Grows : (buyer units : Value) (db : Db) → Grows db (seed buyer units db).1
unfolding seed seed_body
seed-Grows buyer units db =
    with_args-keeps (Grows db) (check_seed buyer units) (λ a. transaction (seed_body a)) db
      (Grows-refl db)
      (λ a _.
        transaction-Grows (seed_body a)
          (λ d.
            written-Grows d (λ d'. ok (tt, d')) (insert_account a.0 a.1 d)
              (λ d₁ e. insert_account-Grows d a.0 a.1 e) (λ d₁. Grows-refl d₁))
          db)

pub revoke-Grows : (kid : Text) (db : Db) → Grows db (revoke kid db).1
unfolding revoke transaction add_revoked
revoke-Grows kid db = Grows-same db (revoke kid db).1 (ground (arith)) (ground (arith))

cancel_body-Grows : (buyer book : Text) → Body-Grows (cancel_body buyer book)
unfolding cancel_body
cancel_body-Grows buyer book db =
    Returns-bind P (or_raise (select_first (of_owner book buyer) db.books) unknown_book) _ (λ b _.
      written-Grows db _ (update_accounts (release_row b.remaining) (of_buyer buyer) db)
        (λ d e. update_accounts-Grows db (release_row b.remaining) (of_buyer buyer) e)
        (λ d.
          written-Grows d _ (update_books close_row book d)
            (λ d' e. update_books-Grows d close_row book close_row-Closing e)
            (λ d'. Grows-refl d')))
  where
    P : ℕ × Db → Type 0
    P x = Grows db x.1

pub cancel-Grows : (buyer : Text) (book : Value) (db : Db) → Grows db (cancel buyer book db).1
unfolding cancel
cancel-Grows buyer book db =
    with_args-keeps (Grows db) (identifier book) (λ id. transaction (cancel_body buyer id)) db
      (Grows-refl db)
      (λ id _. transaction-Grows (cancel_body buyer id) (cancel_body-Grows buyer id) db)

insert_cancellation-Grows :
    (r : Cancellation) (db : Db) {db' : Db} → insert_cancellation r db ≡ some db' → Grows db db'
insert_cancellation-Grows r db {db'} h =
    let (_, same) = insert_cancellation-inv db r h in
    Grows-same db db' (ap (λ (d : Db). d.books) same) (ap (λ (d : Db). d.receipts) same)

cancel_new-Grows : (a : CancelArgs) → Body-Grows (cancel_new a)
unfolding cancel_new
cancel_new-Grows a db =
    Returns-bind P (or_raise (held_units a.buyer a.books db.books) wrong_buyer) _ (λ units _.
      written-Grows db _ (update_accounts (release_row units) (of_buyer a.buyer) db)
        (λ d e. update_accounts-Grows db (release_row units) (of_buyer a.buyer) e)
        (λ d.
          written-Grows d _ (close_books a.books d) (λ d' e. close_books-Grows a.books d e)
            (λ d'.
              written-Grows d' _ (insert_cancellation (cancellation_row a units) d')
                (λ d₃ e. insert_cancellation-Grows (cancellation_row a units) d' e)
                (λ d₃. Grows-refl d₃))))
  where
    P : Cancelled × Db → Type 0
    P x = Grows db x.1

pub cancel_many-Grows :
    (sha256 : Bytes → Bytes) (r : CancelRequest) (db : Db) → Grows db (cancel_many sha256 r db).1
unfolding cancel_many cancel_many_body
cancel_many-Grows sha256 r db =
    with_args-keeps (Grows db) (check_cancel sha256 r) (λ a. transaction (cancel_many_body a)) db
      (Grows-refl db)
      (λ a _.
        transaction-Grows (cancel_many_body a)
          (λ d.
            Returns-bind (λ (x : Cancelled × Db). Grows d x.1) _ _
              (λ earlier _.
                unless_prior-Returns (Grows d) earlier (cancel_new a) d (Grows-refl d)
                  (cancel_new-Grows a d)))
          db)
