-- ===== src/HttpAccess/Ledger/Cancel.antt =====
-- `Ledger.cancel` and `Ledger.cancel_many` of examples/http_access/ledger.py.
use gpu_batch_crypto.Prelude.{
  ℕ, ◌+◌, Option, none, some, List, [], ◌∷◌, Text, Bytes, Result, ok, ◌>>=◌, length,
}
use gpu_batch_crypto.Python.Values.{Value}
use gpu_batch_crypto.Sql.{select_first}
use gpu_batch_crypto.HttpAccess.Checks.{Error, unknown_book, wrong_buyer, identifier}
use gpu_batch_crypto.HttpAccess.Tables.{
  Book, Cancelled, Cancellation, Db, of_buyer, of_owner, cancel_request, release_row, close_row,
  update_accounts, update_books, close_books, insert_cancellation,
}
use gpu_batch_crypto.HttpAccess.Ledger.Exec.{
  transaction, written, or_raise, prior, unless_prior, with_args,
}
use gpu_batch_crypto.HttpAccess.Ledger.Requests.{CancelRequest, CancelArgs, check_cancel}

-- The buyer may be any text: it is not checked.
unfoldable pub cancel_body : Text → Text → Db → Result Error (ℕ × Db)
cancel_body buyer book db = do
  b ← or_raise (select_first (of_owner book buyer) db.books) unknown_book
  db₁ ← written (update_accounts (release_row b.remaining) (of_buyer buyer) db)
  db₂ ← written (update_books close_row book db₁)
  ok (b.remaining, db₂)

unfoldable pub cancel : Text → Value → Db → Result Error ℕ × Db
cancel buyer book = with_args (identifier book) (λ id. transaction (cancel_body buyer id))

abbrev pub add_held : Option Book → Option ℕ → Option ℕ
add_held (some b) (some n) = some (b.remaining + n)
add_held (some b) none = none
add_held none n = none

-- The rows of the books, if all are the buyer's: their remaining units.
unfoldable pub held_units : Text → List Text → List Book → Option ℕ
held_units buyer [] books = some 0
held_units buyer (id ∷ ids) books =
    add_held (select_first (of_owner id buyer) books) (held_units buyer ids books)

unfoldable pub cancellation_row : CancelArgs → ℕ → Cancellation
cancellation_row a units = record {
  buyer = a.buyer;
  request_id = a.request_id;
  fingerprint = a.fingerprint;
  response = record { released = units; books = length a.books };
}

unfoldable pub cancel_new : CancelArgs → Db → Result Error (Cancelled × Db)
unfolding cancellation_row
cancel_new a db = do
  units ← or_raise (held_units a.buyer a.books db.books) wrong_buyer
  db₁ ← written (update_accounts (release_row units) (of_buyer a.buyer) db)
  db₂ ← written (close_books a.books db₁)
  db₃ ← written (insert_cancellation (cancellation_row a units) db₂)
  ok ((cancellation_row a units).response, db₃)

unfoldable pub cancel_many_body : CancelArgs → Db → Result Error (Cancelled × Db)
cancel_many_body a db = do
  earlier ←
      prior (λ r. r.fingerprint) (λ r. r.response)
        (select_first (cancel_request a.buyer a.request_id) db.cancellations) a.fingerprint
  unless_prior earlier (cancel_new a) db

unfoldable pub cancel_many : (Bytes → Bytes) → CancelRequest → Db → Result Error Cancelled × Db
cancel_many sha256 r = with_args (check_cancel sha256 r) (λ a. transaction (cancel_many_body a))
