-- ===== src/Verified/Quarantine.antt =====
-- A `VerifiedSigner` (python/batchcrypto/verified.py) that was closed.
use gpu_batch_crypto.Prelude.{
  ℕ, ◌≡◌, refl, ap, inl, inr, Bool, true, false, not, Option, none, some, List, [], ◌∷◌, ◌==◌,
  Bytes, Result, ok, err, ◌>>=◌, ◌^◌, ltb, arith, if◌then◌else◌, Bool-cases, Result-cases,
}
use gpu_batch_crypto.Prelude.Int.{pos, negsuc}
use gpu_batch_crypto.Python.Values
use gpu_batch_crypto.Python.Values.{Value}
use gpu_batch_crypto.Verified.{
  lifted, Error, raised, verification, Backend, Curve, Entry, Signer, close, fault, pin_key,
  export_key, load_live, check_load, load_key, public_key, check_slot, check_epoch, retire_live,
  check_retire, retire_key, release_batch, sign_entry, sign_live, check_sign, sign, find_entry,
}

-- A call of a method.
pub data Call : Type 0 where
  load_call : Value → Value → Value → Call
  public_call : Value → Call
  retire_call : Value → Value → Call
  sign_call : Value → List Value → Value → Call
  close_call : Call

-- The checks of the arguments raise no VerificationError.
record IsCheck {A : Type 0} (r : Result Error A) : Type 0 where
  pub other : r ≡ err verification → ⊥

IsCheck-bind :
    {A B : Type 0} (m : Result Error A) (f : A → Result Error B)
    → IsCheck m
    → ((a : A) → IsCheck (f a))
    → IsCheck (m >>= f)
IsCheck-bind (ok a) f k l = l a
IsCheck-bind (err e) f k l = record { other = λ h. k.other (ground (arith, h)) }

IsCheck-ok : {A : Type 0} (a : A) → IsCheck (ok a)
IsCheck-ok a = record { other = λ h. ground (arith, h) }

IsCheck-lifted : {A : Type 0} (r : Result Values.Error A) → IsCheck (lifted r)
unfolding lifted
IsCheck-lifted (ok a) = IsCheck-ok a
IsCheck-lifted (err e) = record { other = λ h. ground (arith, h) }

IsCheck-slot : (v : Value) → IsCheck (check_slot v)
unfolding check_slot
IsCheck-slot (Value.int (pos n)) = elim (Bool-cases (ltb n 16)) [
  | inl t ↦ rw t (IsCheck-ok n)
  | inr t ↦ rw t (record { other = λ h. ground (arith, h) })
]
IsCheck-slot (Value.int (negsuc n)) = record { other = λ h. ground (arith, h) }
IsCheck-slot (Value.str t) = record { other = λ h. ground (arith, h) }
IsCheck-slot (Value.bytes b) = record { other = λ h. ground (arith, h) }
IsCheck-slot Value.other = record { other = λ h. ground (arith, h) }

IsCheck-epoch : (v : Value) → IsCheck (check_epoch v)
unfolding check_epoch
IsCheck-epoch (Value.int (pos n)) = elim (Bool-cases (ltb n (2 ^ 64))) [
  | inl t ↦ rw t (IsCheck-ok n)
  | inr t ↦ rw t (record { other = λ h. ground (arith, h) })
]
IsCheck-epoch (Value.int (negsuc n)) = record { other = λ h. ground (arith, h) }
IsCheck-epoch (Value.str t) = record { other = λ h. ground (arith, h) }
IsCheck-epoch (Value.bytes b) = record { other = λ h. ground (arith, h) }
IsCheck-epoch Value.other = record { other = λ h. ground (arith, h) }

ruleset check_rules = (IsCheck-bind, IsCheck-ok, IsCheck-lifted, IsCheck-slot, IsCheck-epoch)

module _ (curve : Curve) {W : Type 0} (backend : Backend W) where
  unfoldable pub after : Call → Signer W → Signer W
  after (load_call slot key epoch) s = (load_key curve backend slot key epoch s).1
  after (public_call slot) s = (public_key curve backend slot s).1
  after (retire_call slot epoch) s = (retire_key curve backend slot epoch s).1
  after (sign_call slot digests epoch) s = (sign curve backend slot digests epoch s).1
  after close_call s = close curve backend s

  unfoldable pub run : List Call → Signer W → Signer W
  unfolding after
  run [] s = s
  run (c ∷ cs) s = run cs (after c s)

  -- Closed, with no key.
  pub record IsQuarantined (s : Signer W) : Type 0 where
    pub shut : s.closed ≡ true
    pub forgotten : s.keys ≡ []

  -- A call that raises and changes nothing.
  abbrev pub Raises : {A : Type 0} → Signer W → Result Error A × Signer W → Type 0
  Raises s x = (e : Error) × (x ≡ (err e, s))

  load-closed :
      (slot key epoch : Value) (s : Signer W)
      → s.closed ≡ true
      → Raises s (load_key curve backend slot key epoch s)
  unfolding load_key load_live
  load-closed slot key epoch s h = elim (Result-cases (check_load curve backend slot key epoch)) [
    | inl (e, q) ↦ (e, ground (arith, q))
    | inr (x, q) ↦ (raised Values.runtime_error, ground (arith, q, h))
  ]

  public-closed :
      (slot : Value) (s : Signer W) → s.closed ≡ true → Raises s (public_key curve backend slot s)
  unfolding public_key
  public-closed slot s h = elim (Result-cases (check_slot slot)) [
    | inl (e, q) ↦ (e, ground (arith, q))
    | inr (n, q) ↦ (raised Values.runtime_error, ground (arith, q, h))
  ]

  retire-closed :
      (slot epoch : Value) (s : Signer W)
      → s.closed ≡ true
      → Raises s (retire_key curve backend slot epoch s)
  unfolding retire_key retire_live
  retire-closed slot epoch s h = elim (Result-cases (check_retire curve backend slot epoch)) [
    | inl (e, q) ↦ (e, ground (arith, q))
    | inr (x, q) ↦ (raised Values.runtime_error, ground (arith, q, h))
  ]

  sign-closed :
      (slot : Value) (digests : List Value) (epoch : Value) (s : Signer W)
      → s.closed ≡ true
      → Raises s (sign curve backend slot digests epoch s)
  unfolding sign sign_live
  sign-closed slot digests epoch s h =
      elim (Result-cases (check_sign curve backend slot digests epoch)) [
        | inl (e, q) ↦ (e, ground (arith, q))
        | inr (x, q) ↦ (raised Values.runtime_error, ground (arith, q, h))
      ]

  -- Every call of a closed signer but `close` leaves it as it is; `close` closes it.
  after-closed : (c : Call) (s : Signer W) → IsQuarantined s → IsQuarantined (after c s)
  unfolding after close
  after-closed (load_call slot key epoch) s q =
      rw (ap (λ (x : Result Error ℕ × Signer W). x.1) (load-closed slot key epoch s q.shut).1) q
  after-closed (public_call slot) s q =
      rw (ap (λ (x : Result Error (Bytes × ℕ) × Signer W). x.1) (public-closed slot s q.shut).1) q
  after-closed (retire_call slot epoch) s q =
      rw (ap (λ (x : Result Error ℕ × Signer W). x.1) (retire-closed slot epoch s q.shut).1) q
  after-closed (sign_call slot digests epoch) s q =
      rw
        (ap (λ (x : Result Error (List Value) × Signer W). x.1)
          (sign-closed slot digests epoch s q.shut).1)
        q
  after-closed close_call s q = record { shut = refl; forgotten = refl }

  run-closed : (cs : List Call) (s : Signer W) → IsQuarantined s → IsQuarantined (run cs s)
  unfolding run
  run-closed [] s q = q
  run-closed (c ∷ cs) s q = run-closed cs (after c s) (after-closed c s q)

  -- VerificationError comes with a closed signer.
  abbrev Closes : {A : Type 0} → Result Error A × Signer W → Type 0
  Closes x = x.0 ≡ err verification → IsQuarantined x.1

  Closes-fault : {A : Type 0} (s : Signer W) → Closes (fault curve backend {A = A} s)
  unfolding fault close
  Closes-fault s h = record { shut = refl; forgotten = refl }

  Closes-if :
      {A : Type 0} (b : Bool) (a : A) (s s' : Signer W)
      → Closes (if b then (ok a, s') else fault curve backend s)
  Closes-if true a s s' h = absurd (ground (arith, h))
  Closes-if false a s s' h = Closes-fault s h

  -- Another exception, and another state.
  Closes-raised :
      {A : Type 0} (e : Values.Error) (s : Signer W) → Closes {A = A} (err (raised e), s)
  Closes-raised e s h = absurd (ground (arith, h))

  release_batch-Closes :
      (encoded : Bytes) (digests : List Bytes) (epoch : ℕ) (r : Result Values.Error (List Value))
      (s : Signer W)
      → Closes (release_batch curve backend encoded digests epoch r s)
  unfolding release_batch
  release_batch-Closes encoded digests epoch (err e) s = Closes-fault s
  release_batch-Closes encoded digests epoch (ok sigs) s = Closes-if _ sigs s s

  pin_key-Closes :
      (slot : ℕ) (encoded : Bytes) (epoch : ℕ) (r : Result Values.Error (Bytes × ℕ)) (s : Signer W)
      → Closes (pin_key curve backend slot encoded epoch r s)
  unfolding pin_key
  pin_key-Closes slot encoded epoch (err e) s = Closes-fault s
  pin_key-Closes slot encoded epoch (ok (actual, used)) s = Closes-if _ epoch s _

  export_key-Closes :
      (slot : ℕ) (key : Bytes) (r : Result Values.Error ℕ) (s : Signer W)
      → Closes (export_key curve backend slot key r s)
  unfolding export_key
  export_key-Closes slot key (err e) s = Closes-raised e s
  export_key-Closes slot key (ok epoch) s = pin_key-Closes slot _ epoch _ _

  load_live-Closes :
      (slot : ℕ) (key : Bytes) (expected : ℕ) (s : Signer W)
      → Closes (load_live curve backend slot key expected s)
  unfolding load_live
  load_live-Closes slot key expected s = elim (Bool-cases s.closed) [
    | inl t ↦ simp t (Closes-raised Values.runtime_error s)
    | inr t ↦ simp t (export_key-Closes slot key _ _)
  ]

  sign_entry-Closes :
      (e : Option Entry) (slot : ℕ) (digests : List Bytes) (epoch : ℕ) (s : Signer W)
      → Closes (sign_entry curve backend e slot digests epoch s)
  unfolding sign_entry
  sign_entry-Closes none slot digests epoch s = Closes-raised Values.runtime_error s
  sign_entry-Closes (some e) slot digests epoch s = elim (Bool-cases (not (e.epoch == epoch))) [
    | inl t ↦ rw t (Closes-raised Values.runtime_error s)
    | inr t ↦ rw t (release_batch-Closes e.encoded digests epoch _ _)
  ]

  sign_live-Closes :
      (slot : ℕ) (digests : List Bytes) (epoch : ℕ) (s : Signer W)
      → Closes (sign_live curve backend slot digests epoch s)
  unfolding sign_live
  sign_live-Closes slot digests epoch s = elim (Bool-cases s.closed) [
    | inl t ↦ simp t (Closes-raised Values.runtime_error s)
    | inr t ↦ simp t (sign_entry-Closes (find_entry slot s.keys) slot digests epoch s)
  ]

  check_sign-IsCheck :
      (slot : Value) (digests : List Value) (epoch : Value)
      → IsCheck (check_sign curve backend slot digests epoch)
  unfolding check_sign
  check_sign-IsCheck slot digests epoch = search check_rules depth 10

  sign-Closes :
      (slot : Value) (digests : List Value) (epoch : Value) (s : Signer W)
      → Closes (sign curve backend slot digests epoch s)
  unfolding sign
  sign-Closes slot digests epoch s =
      go (check_sign curve backend slot digests epoch) (check_sign-IsCheck slot digests epoch)
    where
      go :
          (c : Result Error (ℕ × List Bytes × ℕ))
          → IsCheck c
          → Closes (elim c as (λ _. Result Error (List Value) × Signer W) [
            | err e ↦ (err e, s)
            | ok (n, ds, e) ↦ sign_live curve backend n ds e s
          ])
      go (err e) k h = absurd (k.other (ground (arith, h)))
      go (ok (n, ds, e)) k h = sign_live-Closes n ds e s h

  check_load-IsCheck : (slot key epoch : Value) → IsCheck (check_load curve backend slot key epoch)
  unfolding check_load
  check_load-IsCheck slot key epoch = search check_rules depth 10

  load_key-Closes :
      (slot key epoch : Value) (s : Signer W) → Closes (load_key curve backend slot key epoch s)
  unfolding load_key
  load_key-Closes slot key epoch s =
      go (check_load curve backend slot key epoch) (check_load-IsCheck slot key epoch)
    where
      go :
          (c : Result Error (ℕ × ℕ × Bytes))
          → IsCheck c
          → Closes (elim c as (λ _. Result Error ℕ × Signer W) [
            | err e ↦ (err e, s)
            | ok (n, e, k) ↦ load_live curve backend n k e s
          ])
      go (err e) k h = absurd (k.other (ground (arith, h)))
      go (ok (n, e, key')) k h = load_live-Closes n key' e s h

  -- Every later method raises and changes nothing.
  pub record IsFinal (s : Signer W) : Type 0 where
    pub quarantined : IsQuarantined s
    pub signs :
        (slot : Value) (digests : List Value) (epoch : Value)
        → Raises s (sign curve backend slot digests epoch s)
    pub loads : (slot key epoch : Value) → Raises s (load_key curve backend slot key epoch s)
    pub retires : (slot epoch : Value) → Raises s (retire_key curve backend slot epoch s)
    pub exports : (slot : Value) → Raises s (public_key curve backend slot s)

  final : (s : Signer W) → IsQuarantined s → IsFinal s
  final s q = record {
    quarantined = q;
    signs = λ slot digests epoch. sign-closed slot digests epoch s q.shut;
    loads = λ slot key epoch. load-closed slot key epoch s q.shut;
    retires = λ slot epoch. retire-closed slot epoch s q.shut;
    exports = λ slot. public-closed slot s q.shut;
  }

  -- Where `sign` raises VerificationError, whatever the runtime did, the signer is closed and has
  -- forgotten its keys, and so it is after any further calls: each of `sign`, `load_key`,
  -- `retire_key` and `public_key` then raises and changes nothing.
  pub sign-IsFinal :
      (slot : Value) (digests : List Value) (epoch : Value) (s : Signer W)
      → (sign curve backend slot digests epoch s).0 ≡ err verification
      → (cs : List Call) → IsFinal (run cs (sign curve backend slot digests epoch s).1)
  sign-IsFinal slot digests epoch s h cs =
      final (run cs (sign curve backend slot digests epoch s).1) (
        run-closed cs (sign curve backend slot digests epoch s).1
          (sign-Closes slot digests epoch s h))

  -- The same where `load_key` raises VerificationError: the exported key was not the one that was
  -- derived, or it could not be read.
  pub load_key-IsFinal :
      (slot key epoch : Value) (s : Signer W)
      → (load_key curve backend slot key epoch s).0 ≡ err verification
      → (cs : List Call) → IsFinal (run cs (load_key curve backend slot key epoch s).1)
  load_key-IsFinal slot key epoch s h cs =
      final (run cs (load_key curve backend slot key epoch s).1) (
        run-closed cs (load_key curve backend slot key epoch s).1
          (load_key-Closes slot key epoch s h))
