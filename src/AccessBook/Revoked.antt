-- ===== src/AccessBook/Revoked.antt =====
-- The methods of `Clearing` (examples/access_book/engine.py) after `revoke_key`.
use gpu_batch_crypto.Prelude.{
  ◌≡◌, inl, inr, true, none, [], ◌∷◌, Result, ok, err, arith, any, Bool-cases, Result-cases,
  text_eq, text_eq_refl,
}
use gpu_batch_crypto.Sql.{select_first}
use gpu_batch_crypto.Sql.Laws.{any-append}
use gpu_batch_crypto.AccessBook.Checks.{Error, denied, key_revoked}
use gpu_batch_crypto.AccessBook.Tables.{add_revoked, redemption_request}
use gpu_batch_crypto.AccessBook.Authority.{key_id}
use gpu_batch_crypto.AccessBook.Exec.{State, Env, transaction}
use gpu_batch_crypto.AccessBook.Clearing.{
  IssueRequest, ActivateRequest, RedeemRequest, RedeemArgs, check_issue, check_activate,
  check_redeem, key_ok, issue, issue_checked, activate, activate_checked, redeem, redeem_checked,
  redeem_new, same_redemption, revoke_key,
}

-- The call raises, and nothing changes.
abbrev pub Raises : {A : Type 0} → State → Result Error A × State → Type 0
Raises s x = (e : Error) × (x ≡ (err e, s))

module _ (env : Env) (s : State) (revoked : any (text_eq key_id) s.db.revoked_keys ≡ true) where
  issue-revoked : (q : IssueRequest) → Raises s (issue env q s)
  unfolding issue issue_checked key_ok transaction
  issue-revoked q = elim (Result-cases (check_issue env.sha256 q)) [
    | inl (e, h) ↦ (e, ground (arith, h))
    | inr (a, h) ↦ (denied key_revoked, ground (arith, h, revoked))
  ]

  activate-revoked : (r : ActivateRequest) → Raises s (activate env r s)
  unfolding activate activate_checked key_ok transaction
  activate-revoked r = elim (Result-cases (check_activate r)) [
    | inl (e, h) ↦ (e, ground (arith, h))
    | inr (a, h) ↦ (denied key_revoked, ground (arith, h, revoked))
  ]

  redeem-revoked :
      (r : RedeemRequest) (a : RedeemArgs)
      → check_redeem env.sha256 r ≡ ok a
      → select_first (redemption_request a.buyer a.request_id) s.db.redemptions ≡ none
      → redeem env r s ≡ (err (denied key_revoked), s)
  unfolding redeem redeem_checked same_redemption redeem_new key_ok transaction
  redeem-revoked r a h fresh = ground (arith, h, fresh, revoked)

revoke_key-listed : (s : State) → any (text_eq key_id) (revoke_key s).1.db.revoked_keys ≡ true
unfolding revoke_key add_revoked
revoke_key-listed s = elim (Bool-cases (any (text_eq key_id) s.db.revoked_keys)) [
  | inl t ↦ ground (arith, t)
  | inr f ↦
      ground
        (arith, f, any-append (text_eq key_id) s.db.revoked_keys (key_id ∷ []), text_eq_refl key_id)
]

-- In the state after `revoke_key`, `issue` and `activate` raise and change nothing, whatever their
-- arguments, and a redemption with good arguments whose request has no receipt is denied for the
-- key and changes nothing.
pub revoke_key-refuses :
    (env : Env) (s : State) (q : IssueRequest) (c : ActivateRequest) (r : RedeemRequest)
    (a : RedeemArgs)
    → check_redeem env.sha256 r ≡ ok a
    → select_first (redemption_request a.buyer a.request_id) (revoke_key s).1.db.redemptions ≡ none
    → Raises (revoke_key s).1 (issue env q (revoke_key s).1)
      × Raises (revoke_key s).1 (activate env c (revoke_key s).1)
      × (redeem env r (revoke_key s).1 ≡ (err (denied key_revoked), (revoke_key s).1))
revoke_key-refuses env s q c r a h fresh =
    let t = (revoke_key s).1 in
    let revoked = revoke_key-listed s in
    (
      issue-revoked env t revoked q,
      activate-revoked env t revoked c,
      redeem-revoked env t revoked r a h fresh,
    )
