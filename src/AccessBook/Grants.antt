-- ===== src/AccessBook/Grants.antt =====
-- What `issue` (examples/access_book/engine.py) grants.
use mathlib.Core.Path.{subst}
use gpu_batch_crypto.Prelude.{
  ℕ, ◌+◌, ◌≤◌, ◌<◌, ◌≡◌, refl, sym, ◌∙◌, inl, inr, ◌⊎◌, true, false, Option, none, some, List, [],
  ◌∷◌, Text, text_eq, ok, Returns, Returns-ok, Returns-bind, arith, any, All, All-mono, min,
  Bool-cases, Option-cases,
}
use gpu_batch_crypto.Python.Values.{Value}
use gpu_batch_crypto.Sql.{select_first}
use gpu_batch_crypto.AccessBook.Checks.{
  Offer, denied, key_revoked, integer, identifier, max_ttl, max_units,
}
use gpu_batch_crypto.AccessBook.Tables.{Book, Db, of_request, offer_key}
use gpu_batch_crypto.AccessBook.Authority.{key_id}
use gpu_batch_crypto.AccessBook.Exec.{State, Env, Exec, gets, ◌>>=◌, ◌>>◌}
use gpu_batch_crypto.AccessBook.Clearing.{
  IssueArgs, IssueRequest, check_issue, check_resources, key_ok, current_offers, expiry, same_issue,
  issue_checked, issue,
}
use gpu_batch_crypto.AccessBook.Invariant.{IsConserved}
use gpu_batch_crypto.AccessBook.Hoare.{Post, AnyError, integer-cases, >>=-run, >>=-run_err}
use gpu_batch_crypto.AccessBook.Conserve.Issue.{
  Issued, IsNonempty, issue_new-Post, check_issue-IsNonempty,
}
use gpu_batch_crypto.AccessBook.Retry.{transaction-ok}

-- The expiry of a book is its limit or the end of an offer.
expiry-le_limit : (limit : ℕ) (offers : List Offer) → expiry limit offers ≤ limit
unfolding expiry
expiry-le_limit limit [] = omega arith
expiry-le_limit limit (o ∷ os) = ground (arith, expiry-le_limit limit os)

expiry-le_offers :
    (limit : ℕ) (offers : List Offer)
    → All (λ (o : Offer). expiry limit offers ≤ o.valid_until) offers
unfolding expiry
expiry-le_offers limit [] = tt
expiry-le_offers limit (o ∷ os) =
    let P = λ (x : Offer). expiry limit os ≤ x.valid_until in
    (
      omega arith,
      All-mono P (λ (x : Offer). min o.valid_until (expiry limit os) ≤ x.valid_until) os
          (λ x h. omega (arith, h)) (expiry-le_offers limit os),
    )

current_offers-alive :
    (at : ℕ) (publisher : Text) (resources : List Text) (table : List Offer) {offers : List Offer}
    (limit : ℕ)
    → current_offers at publisher resources table ≡ some offers
    → at < limit
    → at < expiry limit offers
unfolding current_offers expiry
current_offers-alive at publisher [] table {offers} limit h l =
    let none_left : [] ≡ offers = ground (arith, h) in ground (arith, none_left)
current_offers-alive at publisher (r ∷ rs) table {offers} limit h l =
    elim (Option-cases (select_first (offer_key publisher r) table)) [
      | inl e ↦ absurd (ground (arith, e))
      | inr (o, e) ↦ elim (Option-cases (current_offers at publisher rs table)) [
        | inl e' ↦ absurd (ground (arith, e, e'))
        | inr (os, e') ↦
            let live : at < o.valid_until = ground (arith, h, e, e') in
            let all : o ∷ os ≡ offers = ground (arith, h, e, e') in
            ground (arith, all, live, current_offers-alive at publisher rs table limit e' l)
      ]
    ]

issue_body-ok :
    (env : Env) (a : IssueArgs) (s : State) {made : Text × Text} {s' : State}
    → issue_checked env a s ≡ (ok made, s')
    → (any (text_eq key_id) s.db.revoked_keys ≡ false)
      × (same_issue env a (select_first (of_request a.buyer a.request_id) s.db.books) s
          ≡ (ok made, s'))
unfolding issue_checked key_ok
issue_body-ok env a s {made} {s'} h = elim (Bool-cases (any (text_eq key_id) s.db.revoked_keys)) [
  | inl revoked ↦
      let q =
        >>=-run_err key_ok (λ _. body) s {e = denied key_revoked} {s' = s}
          (ground (arith, revoked)) in
      absurd (ground (arith, sym returned ∙ q))
  | inr live ↦ (live, sym (>>=-run key_ok (λ _. body) s {s' = s} (ground (arith, live))) ∙ returned)
]
  where
    body : Exec (Text × Text)
    body = gets (λ db. select_first (of_request a.buyer a.request_id) db.books) >>= λ prior.
        same_issue env a prior

    returned : (key_ok >> body) s ≡ (ok made, s')
    returned = transaction-ok (key_ok >> body) s h

abbrev HasTtl : IssueArgs → Type 0
HasTtl a = (1 ≤ a.ttl) × (a.ttl ≤ max_ttl)

integer-bounds : (v : Value) (lo hi : ℕ) {n : ℕ} → integer v lo hi ≡ ok n → (lo ≤ n) × (n ≤ hi)
integer-bounds v lo hi {n} h = elim (integer-cases v lo hi) [
  | inl e ↦ absurd (ground (arith, h, e))
  | inr (m, e, l, u) ↦ let q : m ≡ n = ground (arith, sym e ∙ h) in (rw (← q) l, rw (← q) u)
]

check_issue-ttl : (env : Env) (q : IssueRequest) → Returns HasTtl (check_issue env.sha256 q)
unfolding check_issue
check_issue-ttl env q = Returns-bind HasTtl (identifier q.buyer) _ (λ _ _.
    Returns-bind HasTtl (identifier q.publisher) _ (λ _ _.
      Returns-bind HasTtl (identifier q.request_id) _ (λ _ _.
        Returns-bind HasTtl (integer q.max_units 1 max_units) _ (λ _ _.
          Returns-bind HasTtl (integer q.ttl 1 max_ttl) _ (λ ttl e.
            Returns-bind HasTtl (check_resources q.resources) _
              (λ rs _. integer-bounds q.ttl 1 max_ttl e))))))

-- A book that the call made: what was written, and the window of its token.
pub record Fresh (env : Env) (a : IssueArgs) (s : State) (made : Text × Text) (db : Db)
    : Type 0 where
  pub issued : Issued env a s made db
  pub alive : issued.at < expiry (issued.at + a.ttl) issued.offers
  pub short : expiry (issued.at + a.ttl) issued.offers ≤ issued.at + max_ttl
  pub covered :
      All (λ (o : Offer). expiry (issued.at + a.ttl) issued.offers ≤ o.valid_until) issued.offers

-- The book of an earlier call with the same arguments, and no change.
pub record Repeated (a : IssueArgs) (s : State) (made : Text × Text) (s' : State) : Type 0 where
  pub book : Book
  pub found : select_first (of_request a.buyer a.request_id) s.db.books ≡ some book
  pub same_request : text_eq book.request_hash a.request_hash ≡ true
  pub same_book : made ≡ (book.id, book.token)
  pub unchanged : s' ≡ s

module _ (env : Env) (a : IssueArgs) (s : State) {made : Text × Text} where
  fresh : {db : Db} → HasTtl a → Issued env a s made db → Fresh env a s made db
  fresh ttl i = record {
    issued = i;
    alive =
        current_offers-alive i.at a.publisher a.resources s.db.offers (i.at + a.ttl) i.found
          (omega (arith, ttl.0));
    short = omega (arith, ttl.1, expiry-le_limit (i.at + a.ttl) i.offers);
    covered = expiry-le_offers (i.at + a.ttl) i.offers;
  }

  granted :
      {s' : State}
      → HasTtl a
      → IsNonempty a.resources
      → IsConserved s.db
      → (prior : Option Book) → select_first (of_request a.buyer a.request_id) s.db.books ≡ prior
      → same_issue env a prior s ≡ (ok made, s')
      → Fresh env a s made s'.db ⊎ Repeated a s made s'
  unfolding same_issue
  granted ttl (r, rs, asked) inv none e h =
      inl (
        fresh ttl
          (subst (Post (Issued env a s) AnyError) h (issue_new-Post env a r rs s inv asked)))
  granted ttl nonempty inv (some b) e h =
      elim (Bool-cases (text_eq b.request_hash a.request_hash)) [
        | inl t ↦ inr (record {
          book = b;
          found = e;
          same_request = t;
          same_book = ground (arith, h, t);
          unchanged = ground (arith, h, t);
        })
        | inr t ↦ absurd (ground (arith, h, t))
      ]

-- An `issue` that returned a book and a token, its arguments being good and the database
-- conserved, found the key not revoked, and then: either it wrote one new book with an item for
-- each offer, whose total is within the caller's limit and was moved from available to reserved
-- of the caller's account, alive at the time it was made, for 300 seconds at most and no longer
-- than any of its offers; or a book of the same request was there, which it returned unchanged.
pub issue-granted :
    (env : Env) (q : IssueRequest) (a : IssueArgs) (s : State) {made : Text × Text} {s' : State}
    → IsConserved s.db
    → check_issue env.sha256 q ≡ ok a
    → issue env q s ≡ (ok made, s')
    → (any (text_eq key_id) s.db.revoked_keys ≡ false)
      × (Fresh env a s made s'.db ⊎ Repeated a s made s')
unfolding issue
issue-granted env q a s {made} {s'} inv e h =
    let (live, returned) = issue_body-ok env a s (ground (arith, h, e)) in
    let nonempty =
      Returns-ok (λ (a : IssueArgs). IsNonempty a.resources) (check_issue env.sha256 q)
        (check_issue-IsNonempty env.sha256 q) e in
    (
      live,
      granted env a s (Returns-ok HasTtl (check_issue env.sha256 q) (check_issue-ttl env q) e)
          nonempty inv (select_first (of_request a.buyer a.request_id) s.db.books) refl returned,
    )
