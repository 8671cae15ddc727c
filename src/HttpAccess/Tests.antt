-- ===== src/HttpAccess/Tests.antt =====
-- Runs of the ledger of examples/http_access/ledger.py on small databases, and the theorems about
-- it at concrete arguments.
use gpu_batch_crypto.Prelude.{
  ℕ, ◌≡◌, refl, true, false, Option, none, some, [], ◌∷◌, map, Text, text, text_eq, ok, err,
  length-map, arith,
}
use gpu_batch_crypto.Prelude.Int.{pos}
use gpu_batch_crypto.Python.Values.{Value}
use gpu_batch_crypto.AccessBook.Checks.{hexdigest}
use gpu_batch_crypto.Sql.{select_first, select_sum, update_where}
use gpu_batch_crypto.HttpAccess.Checks.{
  Catalog, Error, identifier, integer, offer, value_is, digest,
}
use gpu_batch_crypto.HttpAccess.Tables.{
  Entry, Receipt, Db, insert_account, insert_book, insert_item, insert_items, insert_issue,
  insert_receipt, update_accounts, update_books, buy_row, spend_row, release_row, reserve_row,
  consume_row, close_row, accrue, add_revoked, close_books, insert_cancellation,
}
use gpu_batch_crypto.AccessBook.Clearing.{has_duplicate, sorted}
use gpu_batch_crypto.HttpAccess.Ledger
use gpu_batch_crypto.HttpAccess.Ledger.{
  Sign, Issuing, IssueArgs, Prepared, Clearing, SpendRequest, SpendArgs, CancelRequest, transaction,
  prior, bounded_list, check_spend, spend, spend_body, spend_new, charge, check_book, is_usable,
  in_scope, new_receipt, receipt_row, row_count, issue_prepare, issue_commit, total_units,
  manifest_units, draw_ids, responses, all_claims, signed, claims,
}
use gpu_batch_crypto.HttpAccess.Invariant.{IsConserved, empty_db}
use gpu_batch_crypto.HttpAccess.Conserve.{IsComplete}
use gpu_batch_crypto.HttpAccess.Reach.{
  Reach, Step, start, next, report, Reach-IsConserved, audit-Reach,
}
use gpu_batch_crypto.HttpAccess.Later
use gpu_batch_crypto.HttpAccess.Later.{now}
use gpu_batch_crypto.HttpAccess.Promises.{row_of, spend-retry, spend-once, cancel-spend}

-- A catalog of one resource.
abbrev page : Text
page = text "r0"

abbrev catalog : Catalog
catalog = (page, record { content = text "c"; terms = text "t"; units = 5 }) ∷ []

-- A signer that gives each book the same token.
abbrev keys : ℕ → Sign
keys n given = ok (text "k", map (λ _. text "tok") given)

keys-IsComplete : (n : ℕ) → IsComplete (keys n)
keys-IsComplete n given kid tokens h =
    let same : map (λ _. text "tok") given ≡ tokens = ground (arith, h) in
    rw (← same) (length-map (λ _. text "tok") given)

-- The hash of the tests is the empty text.
abbrev clearing : Clearing
clearing = record { now = 20; committed_at = 21; receipt_id = text "x1"; sha256 = λ _. [] }

abbrev issuing : Issuing
issuing = record { at = 10; later = 11; token_hex = λ n. text "b1"; sha256 = λ _. [] }

abbrev entry : Entry
entry = record { resource = page; content = text "c"; terms = text "t"; units = 5 }

abbrev issue_args : IssueArgs
issue_args = record {
  buyer = text "u";
  request_id = text "q1";
  manifests = (entry ∷ []) ∷ [];
  max_units = 9;
  ttl = 60;
  fingerprint = [];
}

abbrev prepared : Prepared
prepared = record {
  buyer = text "u";
  request_id = text "q1";
  fingerprint = [];
  total = 5;
  at = 10;
  ttl = 60;
  kid = text "k";
  response = record { book = text "b1"; token = text "tok"; manifest = entry ∷ [] } ∷ [];
}

prepared-run : issue_prepare issuing (keys 0) issue_args ≡ ok prepared
unfolding issue_prepare total_units manifest_units draw_ids responses all_claims signed
prepared-run = refl

abbrev spend_request : Text → Text → Option Value → Option Value → SpendRequest
spend_request request_id resource book token = record {
  buyer = Value.str (text "u");
  request_id = Value.str request_id;
  resource = Value.str resource;
  content = Value.str (text "c");
  terms = Value.str (text "t");
  max_units = Value.int (pos 9);
  book = book;
  token = token;
}

abbrev from_book : Text → SpendRequest
from_book request_id =
    spend_request request_id page (some (Value.str (text "b1"))) (some (Value.str (text "tok")))

abbrev cancelling : CancelRequest
cancelling = record {
  buyer = Value.str (text "u");
  request_id = Value.str (text "q4");
  books = some (Value.str (text "b1") ∷ []);
}

-- A buyer with an account, a book, two spendings, a cancellation and a revoked key.
abbrev db₁ : Db
db₁ = (Ledger.seed (Value.str (text "u")) (Value.int (pos 100)) empty_db).1

abbrev db₂ : Db
db₂ = (issue_commit prepared 11 db₁).1

abbrev db₃ : Db
db₃ = (spend clearing catalog (from_book (text "q2")) db₂).1

abbrev db₄ : Db
db₄ = (spend clearing catalog (spend_request (text "q3") page none none) db₃).1

abbrev db₅ : Db
db₅ = (Ledger.cancel_many (λ _. []) cancelling db₄).1

abbrev db₆ : Db
db₆ = (Ledger.revoke (text "k") db₅).1

history : Reach keys catalog db₆
history =
    next
      (next
        (next
          (next
            (next (next start (Step.seed (Value.str (text "u")) (Value.int (pos 100)) refl))
              (Step.issue issuing 0 issue_args prepared prepared-run refl))
            (Step.spend clearing (from_book (text "q2")) refl))
          (Step.spend clearing (spend_request (text "q3") page none none) refl))
        (Step.cancel_many (λ _. []) cancelling refl))
      (Step.revoke (text "k") refl)

Reach-IsConserved_example : IsConserved db₆
Reach-IsConserved_example = Reach-IsConserved keys catalog keys-IsComplete history

audit-Reach_example : Ledger.audit db₆ ≡ (ok (report db₆), db₆)
audit-Reach_example = audit-Reach keys catalog keys-IsComplete history

-- The buyer of a book of one item, before and after it is spent.
abbrev active : Db
active = record {
  accounts =
      record { buyer = text "u"; initial = 100; available = 95; reserved = 5; spent = 0 } ∷ [];
  books =
      record {
        id = text "b1";
        buyer = text "u";
        kid = text "k";
        token = text "tok";
        issued = 10;
        expires = 70;
        remaining = 5;
        closed = false;
      }
      ∷ [];
  items =
      record { book = text "b1"; resource = page; content = text "c"; terms = text "t"; units = 5 }
      ∷ [];
  issues = [];
  receipts = [];
  revoked = [];
  cancellations = [];
  accrued = 0;
}

abbrev args : Text → SpendArgs
args request_id = record {
  buyer = text "u";
  request_id = request_id;
  resource = page;
  offer = record { content = text "c"; terms = text "t"; units = 5 };
  max_units = 9;
  book = some (text "b1");
  token = some (Value.str (text "tok"));
  fingerprint = [];
}

abbrev receipt : Receipt
receipt = record {
  id = text "x1";
  buyer = text "u";
  book = some (text "b1");
  resource = page;
  content = text "c";
  terms = text "t";
  units = 5;
  committed_at = 21;
}

abbrev spent : Db
spent = record {
  accounts =
      record { buyer = text "u"; initial = 100; available = 95; reserved = 0; spent = 5 } ∷ [];
  books =
      record {
        id = text "b1";
        buyer = text "u";
        kid = text "k";
        token = text "tok";
        issued = 10;
        expires = 70;
        remaining = 0;
        closed = false;
      }
      ∷ [];
  items = active.items;
  issues = [];
  receipts =
      record {
        buyer = text "u";
        request_id = text "q2";
        fingerprint = [];
        book = some (text "b1");
        resource = page;
        units = 5;
        response = receipt;
      }
      ∷ [];
  revoked = [];
  cancellations = [];
  accrued = 5;
}

-- The book's key is revoked and the book is closed.
abbrev ended : Db
ended = record active {
  accounts =
      record { buyer = text "u"; initial = 100; available = 100; reserved = 0; spent = 0 } ∷ [];
  books =
      record {
        id = text "b1";
        buyer = text "u";
        kid = text "k";
        token = text "tok";
        issued = 10;
        expires = 70;
        remaining = 0;
        closed = true;
      }
      ∷ [];
}

record Facts : Type 0 where
  checked : check_spend (λ _. []) catalog (from_book (text "q2")) ≡ ok (args (text "q2"))
  checked_again : check_spend (λ _. []) catalog (from_book (text "q3")) ≡ ok (args (text "q3"))
  new : row_of (args (text "q2")) active ≡ none
  new_again : row_of (args (text "q3")) spent ≡ none
  returned : spend clearing catalog (from_book (text "q2")) active ≡ (ok receipt, spent)
  cancelled : Ledger.cancel (text "u") (Value.str (text "b1")) active ≡ (ok 5, ended)
  none_yet : row_of (args (text "q2")) ended ≡ none

facts : Facts
unfolding check_spend offer identifier integer value_is digest select_first text_eq spend spend_body
    spend_new charge check_book is_usable in_scope new_receipt receipt_row row_count prior
    transaction update_accounts update_books update_where spend_row consume_row insert_receipt
    accrue hexdigest Ledger.cancel Ledger.cancel_body release_row close_row text
facts = record {
  checked = refl;
  checked_again = refl;
  new = refl;
  new_again = refl;
  returned = refl;
  cancelled = refl;
  none_yet = refl;
}

-- A later clock, with another random id.
abbrev later : Clearing
later = record { now = 500; committed_at = 501; receipt_id = text "x2"; sha256 = λ _. [] }

spend-retry_example :
    spend later catalog (from_book (text "q2")) (record spent { revoked = text "k" ∷ [] })
    ≡ (ok receipt, record spent { revoked = text "k" ∷ [] })
spend-retry_example =
    spend-retry catalog (from_book (text "q2")) clearing later active spent
      (record spent { revoked = text "k" ∷ [] }) refl (facts.checked) (facts.returned) refl

-- The key is revoked in between.
abbrev revoked_after : Db → Db
revoked_after db = record db { revoked = text "k" ∷ [] }

revoking : (db : Db) → db.revoked ≡ [] → revoked_after db ≡ (Ledger.revoke (text "k") db).1
unfolding Ledger.revoke transaction add_revoked
revoking db none_yet = rw none_yet refl

spend-once_example :
    (e : Error) × (spend clearing catalog (from_book (text "q3")) (revoked_after spent)
      ≡ (err e, revoked_after spent))
spend-once_example =
    spend-once keys clearing clearing catalog (from_book (text "q2")) (from_book (text "q3")) active
      spent (revoked_after spent) (text "b1") facts.checked facts.checked_again facts.new
      facts.returned (Later.next now (Step.revoke (text "k") (revoking spent refl))) facts.new_again
      refl refl refl

cancel-spend_example :
    (e : Error) × (spend clearing catalog (from_book (text "q2")) (revoked_after ended)
      ≡ (err e, revoked_after ended))
cancel-spend_example =
    cancel-spend keys clearing catalog (from_book (text "q2")) active ended (revoked_after ended)
      (text "u") (text "b1") facts.cancelled
      (Later.next now (Step.revoke (text "k") (revoking ended refl))) facts.checked facts.none_yet
      refl

-- The history did what it says: five units from the book, five from the balance.
history_accounts :
    db₆.accounts
    ≡ record { buyer = text "u"; initial = 100; available = 90; reserved = 0; spent = 10 } ∷ []
unfolding check_spend offer identifier integer value_is digest select_first text_eq spend spend_body
    spend_new charge check_book is_usable in_scope new_receipt receipt_row row_count prior
    transaction update_accounts update_books update_where spend_row buy_row consume_row
    insert_receipt accrue hexdigest release_row close_row text reserve_row select_sum Ledger.seed
    Ledger.seed_body Ledger.check_seed Ledger.revoke issue_commit Ledger.commit_body
    Ledger.issue_new Ledger.insert_books Ledger.new_book insert_account insert_book insert_item
    insert_items insert_issue manifest_units Ledger.cancel_many Ledger.check_cancel
    Ledger.cancel_many_body Ledger.cancel_new Ledger.held_units bounded_list add_revoked
    has_duplicate sorted close_books insert_cancellation
history_accounts = refl
