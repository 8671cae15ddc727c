-- ===== src/AccessBook/Hoare.antt =====
-- Postconditions of actions: of the value and the database where the action returns, of the
-- exception where it raises.
use mathlib.Core.Path.{subst}
use gpu_batch_crypto.Prelude.{
  sym, ap, ℕ, ◌≤◌, ◌≡◌, refl, ◌⊎◌, inl, inr, arith, Bool-cases, Result, ok, err,
}
use gpu_batch_crypto.Prelude.Int.{pos, negsuc}
use gpu_batch_crypto.Python.Values
use gpu_batch_crypto.AccessBook.Checks.{
  Error, denied, signing, integrity, buyer_conservation, publisher_conservation, integer,
  bad_integer, is_between,
}
use gpu_batch_crypto.AccessBook.Tables.{Db}
use gpu_batch_crypto.AccessBook.Exec.{State, Exec, restored, transaction, ◌>>=◌}

abbrev pub Post :
    {A : Type 0} → (A → Db → Type 0) → (Error → Type 0) → Result Error A × State → Type 0
Post Q E (ok a, s) = Q a s.db
Post Q E (err e, s) = E e

abbrev pub Triple :
    {A : Type 0} → (Db → Type 0) → Exec A → (A → Db → Type 0) → (Error → Type 0) → Type 0
Triple P m Q E = (s : State) → P s.db → Post Q E (m s)

-- The exception is a denial: no statement was refused by the database.
abbrev pub IsDenial : Error → Type 0
IsDenial (denied d) = Unit
IsDenial (signing e) = ⊥
IsDenial integrity = ⊥
IsDenial buyer_conservation = ⊥
IsDenial publisher_conservation = ⊥

abbrev pub AnyError : Error → Type 0
AnyError e = Unit

module _ {A : Type 0} (P : Db → Type 0) where
  pub Triple-bind :
      {B : Type 0} (Q : A → Db → Type 0) (R : B → Db → Type 0) (E : Error → Type 0) (m : Exec A)
      (f : A → Exec B)
      → Triple P m Q E
      → ((a : A) → Triple (Q a) (f a) R E)
      → Triple P (m >>= f) R E
  Triple-bind Q R E m f first then' s p = go (m s) (first s p)
    where
      go :
          (x : Result Error A × State)
          → Post Q E x
          → Post R E (elim x.0 [ ok a ↦ f a x.1 | err e ↦ (err e, x.1) ])
      go (ok a, s') q = then' a s' q
      go (err e, s') q = q

  pub Triple-transaction :
      (Q : A → Db → Type 0) (E : Error → Type 0) (m : Exec A)
      → Triple P m Q E
      → Triple P (transaction m) Q E
  unfolding transaction
  Triple-transaction Q E m h s p = go (m s) (h s p)
    where
      go : (x : Result Error A × State) → Post Q E x → Post Q E (restored s.db x)
      go (ok a, s') q = q
      go (err e, s') q = q

-- A body that raised leaves no trace in the database.
pub transaction-atomic :
    {A : Type 0} (m : Exec A) (s : State) {e : Error}
    → (transaction m s).0 ≡ err e
    → (transaction m s).1.db ≡ s.db
unfolding transaction
transaction-atomic {A} m s {e} = go (m s)
  where
    go : (x : Result Error A × State) → (restored s.db x).0 ≡ err e → (restored s.db x).1.db ≡ s.db
    go (ok a, s') h = cc
    go (err e', s') h = refl

-- A bounded integer, or the denial.
pub integer-cases :
    (v : Values.Value) (lo hi : ℕ)
    → (integer v lo hi ≡ err (denied bad_integer))
      ⊎ ((n : ℕ) × (integer v lo hi ≡ ok n) × (lo ≤ n) × (n ≤ hi))
unfolding integer
integer-cases (Values.int (pos n)) lo hi = elim (Bool-cases (is_between lo hi n)) [
  | inl t ↦ inr (n, rw t, ground arith, ground arith)
  | inr t ↦ inl (rw t)
]
integer-cases (Values.int (negsuc n)) lo hi = inl refl
integer-cases (Values.str t) lo hi = inl refl
integer-cases (Values.bytes b) lo hi = inl refl
integer-cases Values.other lo hi = inl refl

module _ {A : Type 0} (Q : A → Db → Type 0) (E : Error → Type 0) where
  pub Post-err : (x : Result Error A × State) {e : Error} → x.0 ≡ err e → E e → Post Q E x
  Post-err (ok a, s) h k = cc
  Post-err (err e', s) {e} h k = let q : e' ≡ e = ground arith in subst E (sym q) k

  pub Post-ok :
      (x : Result Error A × State) (a : A) (s : State) → x ≡ (ok a, s) → Q a s.db → Post Q E x
  Post-ok x a s h q = subst (Post Q E) (sym h) q

  pub Post-ok_db :
      (x : Result Error A × State) (a : A) (db : Db)
      → x.0 ≡ ok a
      → x.1.db ≡ db
      → Q a db
      → Post Q E x
  Post-ok_db (ok a', s) a db h k q = let e : a' ≡ a = ground arith in rw (e, k) q
  Post-ok_db (err e, s) a db h k q = cc

  pub Post-mono :
      (R : A → Db → Type 0) (x : Result Error A × State)
      → ((a : A) (db : Db) → R a db → Q a db)
      → Post R E x
      → Post Q E x
  Post-mono R (ok a, s) f h = f a s.db h
  Post-mono R (err e, s) f h = h

  pub transaction-Post : (m : Exec A) (s : State) → Post Q E (m s) → Post Q E (transaction m s)
  unfolding transaction
  transaction-Post m s h = go (m s) h
    where
      go : (x : Result Error A × State) → Post Q E x → Post Q E (restored s.db x)
      go (ok a, s') q = q
      go (err e, s') q = q

-- One step of an action.
pub >>=-run :
    {A B : Type 0} (m : Exec A) (f : A → Exec B) (s : State) {a : A} {s' : State}
    → m s ≡ (ok a, s')
    → (m >>= f) s ≡ f a s'
>>=-run {A} {B} m f s e =
    ap
      (λ (x : Result Error A × State). elim x.0 as (λ _. Result Error B × State) [
        | ok a ↦ f a x.1
        | err e ↦ (err e, x.1)
      ])
      e

pub >>=-run_err :
    {A B : Type 0} (m : Exec A) (f : A → Exec B) (s : State) {e : Error} {s' : State}
    → m s ≡ (err e, s')
    → (m >>= f) s ≡ (err e, s')
>>=-run_err {A} {B} m f s h =
    ap
      (λ (x : Result Error A × State). elim x.0 as (λ _. Result Error B × State) [
        | ok a ↦ f a x.1
        | err e ↦ (err e, x.1)
      ])
      h
