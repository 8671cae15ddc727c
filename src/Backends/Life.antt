-- ===== src/Backends/Life.antt =====
-- The end of a `Runtime` of python/batchcrypto/__init__.py.
use gpu_batch_crypto.Prelude.{
  ◌≡◌, refl, Bool, true, false, Option, List, Result, ok, err, if◌then◌else◌,
}
use gpu_batch_crypto.Python.Values.{Value, Error, runtime_error}
use gpu_batch_crypto.Core.{Record}
use gpu_batch_crypto.Backends.Native.{Library}
use gpu_batch_crypto.Backends.Runtime.{
  Runtime, Call, live, checked, close, set_p256_backend, p256_backend, load_key, retire_key, stats,
  seal, open_records, aead_at, sign, sha256, public_key, backend_index, check_load, check_retire,
  check_sign, slot_of,
}

-- The call raises and changes nothing: the library is not called.
abbrev pub Refused : {W A : Type 0} → Call W A → Runtime W → Type 0
Refused {W} {A} call rt = (e : Error) × ◌≡◌ {A = Result Error A × Runtime W} (call rt) (err e, rt)

pub record IsDead {W : Type 0} (lib : Library W) (rt : Runtime W) : Type 0 where
  pub no_backend : (v : Value) → Refused (set_p256_backend lib v) rt
  pub no_name : Refused (p256_backend lib) rt
  pub no_load : (slot key kind epoch : Value) → Refused (load_key lib slot key kind epoch) rt
  pub no_retire : (slot epoch : Value) → Refused (retire_key lib slot epoch) rt
  pub no_stats : Refused (stats lib) rt
  pub no_seal :
      (slot : Value) (rs : List Record) (e : Option Value) → Refused (seal lib slot rs e) rt
  pub no_open :
      (slot : Value) (rs : List Record) (e : Option Value) → Refused (open_records lib slot rs e) rt
  pub no_sign :
      (slot : Value) (ds : List Value) (e : Option Value) → Refused (sign lib slot ds e) rt
  pub no_hash : (ms : List Value) → Refused (sha256 lib ms) rt
  pub no_key : (slot : Value) → Refused (public_key lib slot) rt
  pub again : close lib rt ≡ rt

module _ {W : Type 0} (rt : Runtime W) where
  live-Refused : {A : Type 0} (body : Call W A) → rt.open_handle ≡ false → Refused (live body) rt
  unfolding live
  live-Refused {A} body h = (runtime_error, go rt.open_handle h)
    where
      go :
          (b : Bool)
          → b ≡ false
          → ◌≡◌ {A = Result Error A × Runtime W}
              (if b then body rt else (err runtime_error, rt))
              (err runtime_error, rt)
      go true h = cc
      go false h = refl

  checked-Refused :
      {A B : Type 0} (r : Result Error A) (body : A → Call W B)
      → ((a : A) → Refused (body a) rt)
      → Refused (checked r body) rt
  checked-Refused (ok a) body h = h a
  checked-Refused (err e) body h = (e, refl)

module _ {W : Type 0} (lib : Library W) where
  closed-IsDead : (rt : Runtime W) → rt.open_handle ≡ false → IsDead lib rt
  unfolding set_p256_backend p256_backend load_key retire_key stats seal open_records aead_at sign
      sha256 public_key close
  closed-IsDead rt h = record {
    no_backend = λ v. checked-Refused rt (backend_index v) _ (λ n. live-Refused rt _ h);
    no_name = live-Refused rt _ h;
    no_load = λ s k c e. checked-Refused rt (check_load s k c e) _ (λ a. live-Refused rt _ h);
    no_retire = λ s e. checked-Refused rt (check_retire s e) _ (λ a. live-Refused rt _ h);
    no_stats = live-Refused rt _ h;
    no_seal = λ s rs e. checked-Refused rt (slot_of s) _ (λ a. live-Refused rt _ h);
    no_open = λ s rs e. checked-Refused rt (slot_of s) _ (λ a. live-Refused rt _ h);
    no_sign = λ s ds e. checked-Refused rt (check_sign s ds) _ (λ a. live-Refused rt _ h);
    no_hash = λ ms. live-Refused rt _ h;
    no_key = λ s. checked-Refused rt (slot_of s) _ (λ a. live-Refused rt _ h);
    again = go rt.open_handle h;
  }
    where
      go :
          (b : Bool)
          → b ≡ false
          → (if b then record rt { open_handle = false; world = lib.destroy rt.world } else rt) ≡ rt
      go true h = cc
      go false h = refl

  shut : (rt : Runtime W) → (close lib rt).open_handle ≡ false
  unfolding close
  shut rt = go rt.open_handle refl
    where
      go :
          (b : Bool)
          → rt.open_handle ≡ b
          → (if b
              then record rt { open_handle = false; world = lib.destroy rt.world }
              else rt).open_handle
            ≡ false
      go true e = refl
      go false e = e

  -- After `close` every method raises without a call of the library and changes nothing, and
  -- closing again does nothing.
  pub close-IsDead : (rt : Runtime W) → IsDead lib (close lib rt)
  close-IsDead rt = closed-IsDead (close lib rt) (shut rt)
