-- ===== src/HttpAccess/Ledger/Exec.antt =====
-- `Ledger.connection` and `Ledger.prior` of examples/http_access/ledger.py: the body of a
-- transaction gives its value with the database that is committed, or raises, and then the
-- database is rolled back.
use gpu_batch_crypto.Prelude.{Option, none, some, Text, text_eq, Result, ok, err, if◌then◌else◌}
use gpu_batch_crypto.HttpAccess.Checks.{Error, Denial, denied, retry_conflict, integrity}
use gpu_batch_crypto.HttpAccess.Tables.{Db}

abbrev pub Body : Type 0 → Type 0
Body A = Db → Result Error (A × Db)

-- Committed, or rolled back.
abbrev pub ended : {A : Type 0} → Db → Result Error (A × Db) → Result Error A × Db
ended db (ok (a, db')) = (ok a, db')
ended db (err e) = (err e, db)

-- with self.connection(write=True) as db: ...
unfoldable pub transaction : {A : Type 0} → Body A → Db → Result Error A × Db
transaction body db = ended db (body db)

-- A statement that writes.
abbrev pub written : Option Db → Result Error Db
written none = err integrity
written (some db) = ok db

abbrev pub or_raise : {A : Type 0} → Option A → Denial → Result Error A
or_raise none d = err (denied d)
or_raise (some a) d = ok a

-- `prior`: the response of an earlier call with the same request id, whose fingerprint is the same.
unfoldable pub prior :
    {R A : Type 0} → (R → Text) → (R → A) → Option R → Text → Result Error (Option A)
prior fingerprint response none fp = ok none
prior fingerprint response (some row) fp =
    if text_eq (fingerprint row) fp then ok (some (response row)) else err (denied retry_conflict)

-- The earlier response if there is one, and otherwise the work.
abbrev pub unless_prior : {A : Type 0} → Option A → Body A → Body A
unless_prior none body db = body db
unless_prior (some a) body db = ok (a, db)

-- Arguments that a check refused start no transaction.
abbrev pub with_args :
    {A B : Type 0} → Result Error A → (A → Db → Result Error B × Db) → Db → Result Error B × Db
with_args (ok a) f db = f a db
with_args (err e) f db = (err e, db)
