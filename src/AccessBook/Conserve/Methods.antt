-- ===== src/AccessBook/Conserve/Methods.antt =====
-- The methods of `Clearing` and the invariant.
use gpu_batch_crypto.Prelude.{text_eq, any, arith, Bool-cases, ℕ, inl, inr, Text, Returns-ok}
use gpu_batch_crypto.Python.Values.{Value}
use gpu_batch_crypto.Sql.{select_first}
use gpu_batch_crypto.AccessBook.Checks.{denied, key_revoked, OfferValue, Offer}
use gpu_batch_crypto.AccessBook.Tables.{of_request, insert_account, replace_offer, add_publisher}
use gpu_batch_crypto.AccessBook.Exec.{State, Env, gets, execute, modify, ◌>>=◌, ◌>>◌}
use gpu_batch_crypto.AccessBook.Authority.{key_id}
use gpu_batch_crypto.AccessBook.Clearing.{
  same_issue, IssueArgs, IssueRequest, RedeemRequest, check_issue, key_ok, issue_checked, issue,
  seed_simulated_balance, set_offer, revoke_key, purchase, audit,
}
use gpu_batch_crypto.AccessBook.Invariant.{IsConserved}
use gpu_batch_crypto.AccessBook.Invariant.Catalog.{
  insert_account-IsConserved, set_offer-IsConserved, add_revoked-IsConserved,
}
use gpu_batch_crypto.AccessBook.Hoare.{AnyError, Post, transaction-Post, >>=-run, >>=-run_err}
use gpu_batch_crypto.AccessBook.Conserve.Keeps.{Keeps, Keeps-checked, Keeps-Post}
use gpu_batch_crypto.AccessBook.Conserve.Rules.{keeps_rules, Keeps-execute}
use gpu_batch_crypto.AccessBook.Conserve.Issue.{
  IsNonempty, check_issue-IsNonempty, same_issue-Keeps,
}
use gpu_batch_crypto.AccessBook.Conserve.Spend.{redeem-Keeps, activate_unless-Keeps}

module _ (env : Env) where
  -- The transaction: after the key check, which reads only, an earlier book or a new one.
  issue_body-Post :
      (a : IssueArgs) (s : State)
      → IsNonempty a.resources
      → IsConserved s.db
      → Post
          (λ _ db. IsConserved db)
          AnyError
          ((key_ok
              >> (gets (λ db. select_first (of_request a.buyer a.request_id) db.books) >>= λ prior.
                  same_issue env a prior))
            s)
  unfolding key_ok
  issue_body-Post a s (r, rs, asked) inv =
      elim (Bool-cases (any (text_eq key_id) s.db.revoked_keys)) [
        | inl revoked ↦
            rw (>>=-run_err key_ok _ s {e = denied key_revoked} {s' = s} (ground (arith, revoked)))
              tt
        | inr live ↦ rw (>>=-run key_ok _ s {s' = s} (ground (arith, live))) (
            same_issue-Keeps env a r rs s inv asked
              (select_first (of_request a.buyer a.request_id) s.db.books))
      ]

  issue_checked-Keeps : (a : IssueArgs) → IsNonempty a.resources → Keeps (issue_checked env a)
  unfolding issue_checked
  issue_checked-Keeps a nonempty = Keeps-Post AnyError _ (λ s inv.
      transaction-Post (λ _ db. IsConserved db) AnyError _ s (issue_body-Post a s nonempty inv))

  pub issue-Keeps : (q : IssueRequest) → Keeps (issue env q)
  unfolding issue
  issue-Keeps q = Keeps-checked (check_issue env.sha256 q) (issue_checked env) (λ a e.
      issue_checked-Keeps a (
        Returns-ok (λ (a : IssueArgs). IsNonempty a.resources) (check_issue env.sha256 q)
          (check_issue-IsNonempty env.sha256 q) e))

  pub purchase-Keeps : (r : RedeemRequest) (max_units : Value) → Keeps (purchase env r max_units)
  unfolding purchase
  purchase-Keeps r max_units =
      search (keeps_rules, issue-Keeps, activate_unless-Keeps, redeem-Keeps) depth 14

pub seed-Keeps : (buyer units : Value) → Keeps (seed_simulated_balance buyer units)
unfolding seed_simulated_balance
seed-Keeps buyer units = search (keeps_rules, seeded)
  where
    seeded : (b : Text) (n : ℕ) → Keeps (execute (insert_account b n))
    seeded b n =
        Keeps-execute (insert_account b n) (λ db db' inv e. insert_account-IsConserved inv b n e)

pub set_offer-Keeps : (value : OfferValue) → Keeps (set_offer value)
unfolding set_offer
set_offer-Keeps value = search (keeps_rules, listed)
  where
    listed : (o : Offer) → Keeps (modify (replace_offer o) >> modify (add_publisher o.publisher))
    listed o = record { at = λ s inv. set_offer-IsConserved inv o }

pub revoke_key-Keeps : Keeps revoke_key
unfolding revoke_key
revoke_key-Keeps = record { at = λ s inv. add_revoked-IsConserved inv key_id }

pub audit-Keeps : Keeps audit
unfolding audit
audit-Keeps = search keeps_rules depth 10
