-- ===== src/AccessBook/Refusals.antt =====
-- What `redeem` and `release` (examples/access_book/engine.py) refuse, and what they return.
use mathlib.Core.Path.{subst}
use gpu_batch_crypto.Prelude.{
  ℕ, ◌≡◌, refl, sym, inl, inr, true, Option, none, some, Text, Result, ok, err, arith, any,
  Bool-cases,
}
use gpu_batch_crypto.Python.Values.{Value}
use gpu_batch_crypto.Sql.{select_first}
use gpu_batch_crypto.Sql.Laws.{All-select, select-weaken}
use gpu_batch_crypto.AccessBook.Checks.{Error, Denial, denied, identifier}
use gpu_batch_crypto.AccessBook.Tables.{
  Book, Receipt, Db, redemption_request, redemption_key, of_owner, of_parties, of_id,
}
use gpu_batch_crypto.AccessBook.Exec.{State, Env, Exec, restored, transaction}
use gpu_batch_crypto.AccessBook.Clearing.{
  RedeemArgs, RedeemRequest, check_redeem, redeem_new, same_redemption, redeem_checked, redeem,
  close_book, release_checked, release,
}
use gpu_batch_crypto.AccessBook.Invariant.{IsConserved, IsFunded}
use gpu_batch_crypto.AccessBook.Hoare.{Post, Post-mono, IsDenial, Post-ok, transaction-Post}
use gpu_batch_crypto.AccessBook.Conserve.Redeem.{Granted, redeem_new-Post, open_book-inv}
use gpu_batch_crypto.AccessBook.Conserve.Spend.{close_book-run}

-- A denial, with the database as it was.
pub record Refused {A : Type 0} (before : Db) (x : Result Error A × State) : Type 0 where
  pub denial : Denial
  pub raised : x.0 ≡ err (denied denial)
  pub unchanged : x.1.db ≡ before

-- A transaction that returns nothing, and raises denials only.
refused :
    {A : Type 0} (m : Exec A) (s : State)
    → Post (λ _ _. ⊥) IsDenial (m s)
    → Refused s.db (transaction m s)
unfolding transaction
refused {A} m s = go (m s)
  where
    go : (x : Result Error A × State) → Post (λ _ _. ⊥) IsDenial x → Refused s.db (restored s.db x)
    go (ok a, t) h = absurd h
    go (err (denied d), t) h = record { denial = d; raised = refl; unchanged = refl }
    go (err (Error.signing e), t) h = absurd h
    go (err Error.integrity, t) h = absurd h
    go (err Error.buyer_conservation, t) h = absurd h
    go (err Error.publisher_conservation, t) h = absurd h

module _ (env : Env) (a : RedeemArgs) (s : State) (inv : IsConserved s.db)
    (fresh : select_first (redemption_request a.buyer a.request_id) s.db.redemptions ≡ none) where
  -- A new redemption of which no grant is possible.
  redeem_checked-Refused :
      ((receipt : Receipt) (db : Db) → Granted env a s inv fresh receipt db → ⊥)
      → Refused s.db (redeem_checked env a s)
  unfolding redeem_checked same_redemption
  redeem_checked-Refused none_granted =
      refused
        (λ s.
          same_redemption env a
            (select_first (redemption_request a.buyer a.request_id) s.db.redemptions) s)
        s
        (rw fresh (
          Post-mono (λ _ _. ⊥) IsDenial (Granted env a s inv fresh) (redeem_new env a s)
            none_granted (redeem_new-Post env a s inv fresh)))

pub redeem-checked :
    (env : Env) (r : RedeemRequest) (a : RedeemArgs) (s : State)
    → check_redeem env.sha256 r ≡ ok a
    → redeem env r s ≡ redeem_checked env a s
unfolding redeem
redeem-checked env r a s h = ground (arith, h)

-- A resource of a book that has been redeemed is not redeemed again: the call with another
-- request id is denied, and the database is as it was.
pub redeem-once :
    (env : Env) (r : RedeemRequest) (a : RedeemArgs) (s : State)
    → IsConserved s.db
    → check_redeem env.sha256 r ≡ ok a
    → select_first (redemption_request a.buyer a.request_id) s.db.redemptions ≡ none
    → any (redemption_key a.book a.resource) s.db.redemptions ≡ true
    → Refused s.db (redeem env r s)
redeem-once env r a s inv h fresh again =
    rw (redeem-checked env r a s h)
      (redeem_checked-Refused env a s inv fresh (λ receipt db g. ground (arith, g.unspent, again)))

-- `release` that returned n: the book is its caller's, it held n units, and it is closed and
-- holds none.
pub record Released (s : State) (id owner : Text) (n : ℕ) (db : Db) : Type 0 where
  pub book : Book
  pub found : select_first (of_owner id owner) s.db.books ≡ some book
  pub held : n ≡ book.remaining
  pub after :
      select_first (of_owner id owner) db.books
      ≡ some (record book { closed = true; remaining = 0 })
  pub conserved : IsConserved db

module _ (id owner : Text) (s : State) (inv : IsConserved s.db) where
  -- A closed book is its own closed form, since it holds nothing.
  already_closed :
      (b : Book)
      → select_first (of_owner id owner) s.db.books ≡ some b
      → b.closed ≡ true
      → Released s id owner 0 s.db
  already_closed b row e =
      let empty : b.remaining ≡ 0 =
        (All-select (IsFunded s.db.items s.db.redemptions) (of_owner id owner) s.db.books
            inv.funding row).when_closed
          e in
      let same : record b { closed = true; remaining = 0 } ≡ b = cc (e, empty) in
      record { book = b; found = row; held = sym empty; after = rw same row; conserved = inv }

  close_book-Released :
      (row : Option Book)
      → select_first (of_owner id owner) s.db.books ≡ row
      → Post (Released s id owner) IsDenial (close_book id owner row s)
  unfolding close_book
  close_book-Released none e = tt
  close_book-Released (some b) e = elim (Bool-cases b.closed) [
    | inl t ↦
        Post-ok (Released s id owner) IsDenial _ 0 s (ground (arith, t)) (already_closed b e t)
    | inr t ↦
        let (db', run, kept, after) = close_book-run id owner s inv b e t in
        Post-ok (Released s id owner) IsDenial (close_book id owner (some b) s) b.remaining
          (record s { db = db' }) run
          (record { book = b; found = e; held = refl; after = after; conserved = kept })
  ]

  release_checked-Released : Post (Released s id owner) IsDenial (release_checked id owner s)
  unfolding release_checked
  release_checked-Released =
      transaction-Post (Released s id owner) IsDenial _ s (close_book-Released _ refl)

  released :
      {n : ℕ} {s' : State} → release_checked id owner s ≡ (ok n, s') → Released s id owner n s'.db
  released h = subst (Post (Released s id owner) IsDenial) h release_checked-Released

  closed_again :
      {n : ℕ} {s' : State} → Released s id owner n s'.db → release_checked id owner s' ≡ (ok 0, s')
  unfolding release_checked close_book transaction
  closed_again r = ground (arith, r.after)

-- `release` that returned n found a book of its caller that held n units, and left it closed and
-- with none; the same call in the state after it returns 0 and changes nothing.
pub release-twice :
    (book buyer : Value) (id owner : Text) (s : State) {n : ℕ} {s' : State}
    → IsConserved s.db
    → identifier book ≡ ok id
    → identifier buyer ≡ ok owner
    → release book buyer s ≡ (ok n, s')
    → Released s id owner n s'.db × (release book buyer s' ≡ (ok 0, s'))
unfolding release
release-twice book buyer id owner s {n} {s'} inv eb ec h =
    let reached : release_checked id owner s ≡ (ok n, s') = ground (arith, h, eb, ec) in
    let r = released id owner s inv reached in
    (r, ground (arith, eb, ec, closed_again id owner s inv {s' = s'} r))

-- A book that its owner released is not spent from: no new redemption of it is granted, for any
-- resource and any caller, and the database is as it was.
pub redeem-Released :
    (env : Env) (r : RedeemRequest) (a : RedeemArgs) (owner : Text) (s s' : State) {n : ℕ}
    → Released s a.book owner n s'.db
    → check_redeem env.sha256 r ≡ ok a
    → select_first (redemption_request a.buyer a.request_id) s'.db.redemptions ≡ none
    → Refused s'.db (redeem env r s')
redeem-Released env r a owner s s' {n} done h fresh = rw (redeem-checked env r a s' h) (
    redeem_checked-Refused env a s' done.conserved fresh (λ receipt db g.
      let (row, _, is_open, _, _) = open_book-inv g.at _ g.opened in
      let ids = done.conserved.book_ids a.book in
      let one =
        select-weaken (of_id a.book) (of_owner a.book owner) s'.db.books ids (λ x t. ground arith)
          done.after in
      let other =
        select-weaken (of_id a.book) (of_parties a.book a.buyer a.publisher) s'.db.books ids
          (λ x t. ground arith) row in
      ground (arith, one, other, is_open)))
