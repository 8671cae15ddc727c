-- ===== src/Verified/Tests.antt =====
-- A signer over a runtime that signs well, and over one that does not.
use gpu_batch_crypto.Prelude.{
  ℕ, suc, ◌≡◌, refl, false, some, List, [], ◌∷◌, ◌++◌, map, Bytes, text_eq, ok, err, length,
}
use gpu_batch_crypto.Prelude.Int.{pos}
use gpu_batch_crypto.Python.Ints.{int_to_bytes, int_from_bytes}
use gpu_batch_crypto.Python.Values
use gpu_batch_crypto.Python.Values.{Value}
use gpu_batch_crypto.Core.{as_bytes, check_key, check_batch, check_digests}
use gpu_batch_crypto.Jws.{is_low_s, scalar_r, scalar_s}
use gpu_batch_crypto.Verified.{
  verification, Backend, Curve, Signer, check_slot, check_epoch, lifted, find_entry, remove_entry,
  is_complete, is_valid, all_valid, close, fault, pin_key, export_key, load_live, check_load,
  load_key, release_batch, sign_entry, sign_live, check_sign, sign,
}
use gpu_batch_crypto.Verified.Quarantine.{
  sign_call, load_call, run, IsFinal, sign-IsFinal, load_key-IsFinal,
}
use gpu_batch_crypto.Verified.Trust.{Trusted, sign-Trusted}

-- The point of a scalar is its bytes, and a signature is valid if its first scalar is 1.
abbrev toy_curve : Curve
toy_curve = record {
  derive = λ k. int_to_bytes 32 k;
  verify = λ key r s digest. text_eq (r ∷ []) (1 ∷ []);
}

-- The state of the runtime is the length of its last batch; it signs with r, and exports the key 1.
abbrev toy_backend : ℕ → Backend ℕ
toy_backend r = record {
  load_key = λ slot key epoch w. (ok (suc epoch), w);
  public_key = λ slot w. (ok (int_to_bytes 32 1, 1), w);
  retire_key = λ slot epoch w. (ok epoch, w);
  sign = λ slot digests epoch w. (
    ok (map (λ d. Values.bytes (int_to_bytes 32 r ++ int_to_bytes 32 1)) digests),
    length digests,
  );
  last_report = λ w. some (record { submitted = w; completed = w; errors = 0; key_epoch = 1 });
  close = λ w. w;
}

abbrev fresh : Signer ℕ
fresh = record { closed = false; keys = []; world = 0 }

abbrev slot : Value
slot = Value.int (pos 3)

abbrev epoch : ℕ → Value
epoch n = Value.int (pos n)

abbrev key : ℕ → Value
key k = Value.bytes (int_to_bytes 32 k)

abbrev loaded : Signer ℕ
loaded = record {
  closed = false;
  keys = record { slot = 3; epoch = 1; encoded = int_to_bytes 32 1 } ∷ [];
  world = 0;
}

abbrev digests : List Bytes
digests = int_to_bytes 32 5 ∷ int_to_bytes 32 6 ∷ []

abbrev items : List Value
items = map Values.bytes digests

abbrev signatures : List Value
signatures = map (λ (d : Bytes). Values.bytes (int_to_bytes 32 1 ++ int_to_bytes 32 1)) digests

test_load : load_key toy_curve (toy_backend 1) slot (key 1) (epoch 0) fresh ≡ (ok 1, loaded)
unfolding load_key check_load check_slot check_epoch lifted check_digests check_key check_batch
    as_bytes int_from_bytes int_to_bytes load_live export_key pin_key remove_entry text_eq
test_load = refl

record Facts : Type 0 where
  pub checked : check_sign toy_curve (toy_backend 1) slot items (epoch 1) ≡ ok (3, digests, 1)
  pub signed :
      sign toy_curve (toy_backend 1) slot items (epoch 1) loaded
      ≡ (ok signatures, record loaded { world = 2 })
  pub spoiled : (sign toy_curve (toy_backend 2) slot items (epoch 1) loaded).0 ≡ err verification
  pub other_key :
      (load_key toy_curve (toy_backend 1) slot (key 9) (epoch 0) fresh).0 ≡ err verification

facts : Facts
unfolding load_key check_load check_slot check_epoch lifted check_digests check_key check_batch
    as_bytes int_from_bytes int_to_bytes load_live export_key pin_key remove_entry text_eq fault
    close sign check_sign sign_live sign_entry release_batch find_entry is_complete is_valid
    all_valid is_low_s scalar_r scalar_s
facts = record { checked = refl; signed = refl; spoiled = refl; other_key = refl }

sign-Trusted_example :
    Trusted toy_curve (toy_backend 1) 3 digests 1 loaded signatures (record loaded { world = 2 })
sign-Trusted_example =
    sign-Trusted toy_curve (toy_backend 1) slot (epoch 1) items loaded facts.checked facts.signed

sign-IsFinal_example : IsFinal toy_curve (toy_backend 2) (
    run toy_curve
      (toy_backend 2)
      (load_call slot (key 1) (epoch 0) ∷ [])
      (sign toy_curve (toy_backend 2) slot items (epoch 1) loaded).1)
sign-IsFinal_example =
    sign-IsFinal toy_curve (toy_backend 2) slot items (epoch 1) loaded facts.spoiled
      (load_call slot (key 1) (epoch 0) ∷ [])

load_key-IsFinal_example : IsFinal toy_curve (toy_backend 1) (
    run toy_curve
      (toy_backend 1)
      (sign_call slot items (epoch 1) ∷ [])
      (load_key toy_curve (toy_backend 1) slot (key 9) (epoch 0) fresh).1)
load_key-IsFinal_example =
    load_key-IsFinal toy_curve (toy_backend 1) slot (key 9) (epoch 0) fresh facts.other_key
      (sign_call slot items (epoch 1) ∷ [])
