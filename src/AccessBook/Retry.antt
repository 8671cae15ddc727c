-- ===== src/AccessBook/Retry.antt =====
-- Repeated calls of `redeem` (examples/access_book/engine.py).
use gpu_batch_crypto.Prelude.{
  ◌≡◌, refl, sym, ◌∙◌, inl, inr, true, Option, none, some, List, [], ◌∷◌, ◌++◌, text_eq, Result, ok,
  err, arith, Bool-cases, text_eq_refl,
}
use mathlib.Core.Path.{subst}
use gpu_batch_crypto.Sql.{select_first}
use gpu_batch_crypto.Sql.Laws.{select-append_new}
use gpu_batch_crypto.AccessBook.Checks.{Error}
use gpu_batch_crypto.AccessBook.Tables.{Item, Receipt, Redemption, redemption_request}
use gpu_batch_crypto.AccessBook.Exec.{State, Env, Exec, restored, transaction}
use gpu_batch_crypto.AccessBook.Clearing.{
  RedeemArgs, RedeemRequest, check_redeem, same_redemption, redeem_checked, redeem, new_redemption,
}
use gpu_batch_crypto.AccessBook.Invariant.{IsConserved}
use gpu_batch_crypto.AccessBook.Hoare.{Post, IsDenial}
use gpu_batch_crypto.AccessBook.Conserve.Redeem.{Granted, redeem_new-Post}
use gpu_batch_crypto.AccessBook.Refusals.{redeem-checked}

-- A receipt of the request with these arguments is the first of the request.
abbrev Recorded : RedeemArgs → Receipt → List Redemption → Type 0
Recorded a receipt table =
    (r : Redemption) × (select_first (redemption_request a.buyer a.request_id) table ≡ some r)
    × (text_eq r.request_hash a.request_hash ≡ true)
    × (r.receipt ≡ receipt)

appended :
    (a : RedeemArgs) (i : Item) (receipt : Receipt) (old new : List Redemption)
    → select_first (redemption_request a.buyer a.request_id) old ≡ none
    → new ≡ old ++ new_redemption a i receipt ∷ []
    → Recorded a receipt new
unfolding new_redemption
appended a i receipt old new e h =
    let r = new_redemption a i receipt in
    let this : redemption_request a.buyer a.request_id r ≡ true =
      ground (arith, text_eq_refl a.buyer, text_eq_refl a.request_id) in
    (
      r,
      rw h (
          select-append_new (redemption_request a.buyer a.request_id) old r e
          ∙ ground (arith, this)),
      text_eq_refl a.request_hash,
      refl,
    )

module _ (env : Env) (a : RedeemArgs) (s : State) (inv : IsConserved s.db) where
  same_redemption-Recorded :
      (prior : Option Redemption) {receipt : Receipt} {s' : State}
      → select_first (redemption_request a.buyer a.request_id) s.db.redemptions ≡ prior
      → same_redemption env a prior s ≡ (ok receipt, s')
      → Recorded a receipt s'.db.redemptions
  unfolding same_redemption
  same_redemption-Recorded none {receipt} {s'} e h =
      let g : Granted env a s inv e receipt s'.db =
        subst (Post (Granted env a s inv e) IsDenial) h (redeem_new-Post env a s inv e) in
      appended a g.item receipt s.db.redemptions s'.db.redemptions e g.appended
  same_redemption-Recorded (some r) {receipt} {s'} e h =
      elim (Bool-cases (text_eq r.request_hash a.request_hash)) [
        | inl t ↦
            let same : s ≡ s' = ground (arith, h, t) in (r, rw (← same) e, t, ground (arith, h, t))
        | inr t ↦ absurd (ground (arith, h, t))
      ]

-- A body that returned was not rolled back.
pub transaction-ok :
    {A : Type 0} (m : Exec A) (s : State) {a : A} {s' : State}
    → transaction m s ≡ (ok a, s')
    → m s ≡ (ok a, s')
unfolding transaction
transaction-ok {A} m s {a} {s'} = go (m s)
  where
    go : (x : Result Error A × State) → restored s.db x ≡ (ok a, s') → x ≡ (ok a, s')
    go (ok b, t) h = h
    go (err e, t) h = absurd (ground (arith, h))

retry_checked :
    (env : Env) (a : RedeemArgs) (s t : State) {receipt : Receipt} {s' : State}
    → IsConserved s.db
    → redeem_checked env a s ≡ (ok receipt, s')
    → select_first (redemption_request a.buyer a.request_id) t.db.redemptions
      ≡ select_first (redemption_request a.buyer a.request_id) s'.db.redemptions
    → redeem_checked env a t ≡ (ok receipt, t)
unfolding redeem_checked same_redemption transaction
retry_checked env a s t {receipt} {s'} inv h kept =
    let prior = select_first (redemption_request a.buyer a.request_id) s.db.redemptions in
    let returned : same_redemption env a prior s ≡ (ok receipt, s') =
      transaction-ok
        (λ s.
          same_redemption env a
            (select_first (redemption_request a.buyer a.request_id) s.db.redemptions) s)
        s h in
    let (r, found, same, is) = same_redemption-Recorded env a s inv prior refl returned in
    let again : select_first (redemption_request a.buyer a.request_id) t.db.redemptions ≡ some r =
      kept ∙ found in
    ground (arith, again, same, is)

-- A redemption that returned in a consistent database is repeated exactly: the same call in any
-- state in which its request id finds the same row, whatever else changed, returns the same receipt
-- and changes nothing.
pub redeem-retry :
    (env : Env) (r : RedeemRequest) (a : RedeemArgs) (s t : State) {receipt : Receipt} {s' : State}
    → IsConserved s.db
    → check_redeem env.sha256 r ≡ ok a
    → redeem env r s ≡ (ok receipt, s')
    → select_first (redemption_request a.buyer a.request_id) t.db.redemptions
      ≡ select_first (redemption_request a.buyer a.request_id) s'.db.redemptions
    → redeem env r t ≡ (ok receipt, t)
redeem-retry env r a s t {receipt} {s'} inv checked h kept =
    redeem-checked env r a t checked
    ∙ retry_checked env a s t inv (sym (redeem-checked env r a s checked) ∙ h) kept
