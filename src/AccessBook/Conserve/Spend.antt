-- ===== src/AccessBook/Conserve/Spend.antt =====
-- `redeem`, `release`, `activate` and `purchase`, and the invariant.
use gpu_batch_crypto.Prelude.{
  ◌≡◌, refl, inl, inr, Bool, true, false, Option, none, some, Text, text_eq, ok, arith, Bool-cases,
  text_eq_sound, text_eq_refl,
}
use gpu_batch_crypto.Python.Values.{Value}
use gpu_batch_crypto.Sql.{select_first}
use gpu_batch_crypto.Sql.Update.{select-update}
use gpu_batch_crypto.AccessBook.Rows.{close_row-inv}
use gpu_batch_crypto.Sql.Laws.{select-holds, select-weaken}
use gpu_batch_crypto.AccessBook.Checks.{denied, redeem_conflict}
use gpu_batch_crypto.AccessBook.Tables.{
  Book, Redemption, Db, of_id, of_owner, redemption_request, update_accounts, update_books,
  close_row,
}
use gpu_batch_crypto.AccessBook.Exec.{State, Env}
use gpu_batch_crypto.AccessBook.Clearing.{
  admit, activate_found, activate_unless, RedeemArgs, RedeemRequest, ActivateArgs, ActivateRequest,
  redeem_new, same_redemption, redeem_checked, redeem, close_book, release_checked, release,
  activate_checked, activate,
}
use gpu_batch_crypto.AccessBook.Invariant.{IsConserved}
use gpu_batch_crypto.AccessBook.Invariant.Release.{close_total, release_total, release-IsConserved}
use gpu_batch_crypto.AccessBook.Hoare.{
  Post, Post-mono, Post-err, Post-ok, IsDenial, transaction-Post,
}
use gpu_batch_crypto.AccessBook.Conserve.Keeps.{Keeps, Keeps-Post}
use gpu_batch_crypto.AccessBook.Conserve.Rules.{keeps_rules}
use gpu_batch_crypto.AccessBook.Conserve.Redeem.{Granted, redeem_new-Post}

-- The invariant as a postcondition.
abbrev Kept : {A : Type 0} → A → Db → Type 0
Kept a db = IsConserved db

module _ (env : Env) (a : RedeemArgs) (s : State) (inv : IsConserved s.db) where
  same_redemption-Post :
      (prior : Option Redemption)
      → select_first (redemption_request a.buyer a.request_id) s.db.redemptions ≡ prior
      → Post Kept IsDenial (same_redemption env a prior s)
  unfolding same_redemption
  same_redemption-Post none e =
      Post-mono Kept IsDenial (Granted env a s inv e) (redeem_new env a s) (λ r db g. g.conserved)
        (redeem_new-Post env a s inv e)
  same_redemption-Post (some r) e = elim (Bool-cases (text_eq r.request_hash a.request_hash)) [
    | inl t ↦ Post-ok Kept IsDenial _ r.receipt s (ground (arith, t)) inv
    | inr t ↦ Post-err Kept IsDenial _ {e = denied redeem_conflict} (ground (arith, t)) tt
  ]

  redeem_checked-Post : Post Kept IsDenial (redeem_checked env a s)
  unfolding redeem_checked
  redeem_checked-Post = transaction-Post Kept IsDenial _ s (same_redemption-Post _ refl)

module _ (id buyer : Text) (s : State) (inv : IsConserved s.db) where
  -- The book as its owner finds it, by its key alone.
  owned :
      (b : Book)
      → select_first (of_owner id buyer) s.db.books ≡ some b
      → (b.id ≡ id) × (b.buyer ≡ buyer) × (select_first (of_id b.id) s.db.books ≡ some b)
  owned b row =
      let key = select-holds (of_owner id buyer) s.db.books row in
      let same : b.id ≡ id = text_eq_sound b.id id (ground (arith, key)) in
      (
        same,
        text_eq_sound b.buyer buyer (ground (arith, key)),
        simp same (
            select-weaken (of_id id) (of_owner id buyer) s.db.books (inv.book_ids id)
              (λ x t. ground arith) row),
      )

  -- What closing an open book does.
  pub close_book-run :
      (b : Book)
      → select_first (of_owner id buyer) s.db.books ≡ some b
      → b.closed ≡ false
      → (db' : Db) × (close_book id buyer (some b) s ≡ (ok b.remaining, record s { db = db' }))
        × IsConserved db'
        × (select_first (of_owner id buyer) db'.books
            ≡ some (record b { closed = true; remaining = 0 }))
  unfolding close_book update_accounts update_books
  close_book-run b row is_open =
      let (same, owner, found) = owned b row in
      let (accounts', wa) = release_total inv found in
      let (books', wb) = close_total inv found in
      (
        record s.db { accounts = accounts'; books = books' },
        ground (arith, wa, wb, same, owner, is_open),
        release-IsConserved inv found wa wb,
        select-update (of_owner id buyer) (of_id b.id) close_row s.db.books
            (λ x y m. ground (arith, close_row-inv x m)) row (text_eq_refl b.id)
            (unfold close_row in refl) wb,
      )

  close_book-Post :
      (row : Option Book)
      → select_first (of_owner id buyer) s.db.books ≡ row
      → Post Kept IsDenial (close_book id buyer row s)
  unfolding close_book
  close_book-Post none e = tt
  close_book-Post (some b) e = elim (Bool-cases b.closed) [
    | inl t ↦ Post-ok Kept IsDenial _ 0 s (ground (arith, t)) inv
    | inr t ↦
        let (db', run, kept, _) = close_book-run b e t in
        Post-ok Kept IsDenial (close_book id buyer (some b) s) _ (record s { db = db' }) run kept
  ]

  release_checked-Post : Post Kept IsDenial (release_checked id buyer s)
  unfolding release_checked
  release_checked-Post = transaction-Post Kept IsDenial _ s (close_book-Post _ refl)

pub release_checked-Keeps : (id buyer : Text) → Keeps (release_checked id buyer)
unfolding release_checked
release_checked-Keeps id buyer = Keeps-Post IsDenial _ (release_checked-Post id buyer)

pub redeem_checked-Keeps : (env : Env) (a : RedeemArgs) → Keeps (redeem_checked env a)
unfolding redeem_checked
redeem_checked-Keeps env a = Keeps-Post IsDenial _ (redeem_checked-Post env a)

pub redeem-Keeps : (env : Env) (r : RedeemRequest) → Keeps (redeem env r)
unfolding redeem
redeem-Keeps env r = search (keeps_rules, redeem_checked-Keeps)

pub release-Keeps : (book buyer : Value) → Keeps (release book buyer)
unfolding release
release-Keeps book buyer = search (keeps_rules, release_checked-Keeps)

module _ (env : Env) where
  admit-Keeps : (a : ActivateArgs) (b : Book) → Keeps (admit env a b)
  unfolding admit
  admit-Keeps a b = elim (Bool-cases b.active) [
    | inl t ↦ rw t (search keeps_rules)
    | inr t ↦ rw t (search keeps_rules)
  ]

  activate_found-Keeps : (a : ActivateArgs) (row : Option Book) → Keeps (activate_found env a row)
  unfolding activate_found
  activate_found-Keeps a none = search keeps_rules
  activate_found-Keeps a (some b) = search (keeps_rules, admit-Keeps) depth 12

  pub activate_checked-Keeps : (a : ActivateArgs) → Keeps (activate_checked env a)
  unfolding activate_checked
  activate_checked-Keeps a = search (keeps_rules, activate_found-Keeps) depth 8

  pub activate-Keeps : (r : ActivateRequest) → Keeps (activate env r)
  unfolding activate
  activate-Keeps r = search (keeps_rules, activate_checked-Keeps)

  pub activate_unless-Keeps : (b : Bool) (r : ActivateRequest) → Keeps (activate_unless b env r)
  unfolding activate_unless
  activate_unless-Keeps true r = search keeps_rules
  activate_unless-Keeps false r = search (keeps_rules, activate-Keeps)
