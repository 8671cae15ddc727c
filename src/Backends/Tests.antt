-- ===== src/Backends/Tests.antt =====
-- The classes of python/batchcrypto/__init__.py over a small library, and the theorems about them.
use gpu_batch_crypto.Prelude.{
  leb, ◌&&◌, ◌==◌, if◌then◌else◌, ℕ, zero, suc, ◌+◌, ◌-◌, ◌≡◌, refl, Bool, true, false, none, some,
  List, [], ◌∷◌, map, Bytes, ok, map_result, length, drop, arith, ap, ◌∙◌,
}
use gpu_batch_crypto.Prelude.Int.{pos}
use gpu_batch_crypto.Python.Ints.{int_to_bytes, int_from_bytes}
use gpu_batch_crypto.Python.Values.{Value, bytes, int}
use gpu_batch_crypto.Core.{
  Record, check_records, check_record, check_each, check_key, check_batch, check_digests, as_bytes,
  as_byte_record, as_digest, order, max_batch,
}
use gpu_batch_crypto.Verified.{Report}
use gpu_batch_crypto.Jws.{check_signature}
use gpu_batch_crypto.Backends.Native.{
  Item, Outcome, Library, raw, check_status, check_statuses, output_size, to_item,
}
use gpu_batch_crypto.Backends.Cpu
use gpu_batch_crypto.Backends.Cpu.{Openssl, sealed, unsealed, key_bytes}
use gpu_batch_crypto.Backends.Cuda
use gpu_batch_crypto.Backends.Cuda.{
  aead, aead_checked, read_records, collect, read_output, read_pieces, pieces, joined,
}
use gpu_batch_crypto.Backends.Runtime
use gpu_batch_crypto.Backends.Runtime.{
  Runtime, aead_at, live, slot_of, keyed_call, keyed_epoch, reported, unless_empty, check_sign,
}
use gpu_batch_crypto.Backends.Shapes.{IsBatch, IsSigned, aead_at-IsBatch, sign-IsSigned}
use gpu_batch_crypto.Backends.Life.{IsDead, close-IsDead}
use gpu_batch_crypto.Backends.Limits.{accepts}
use gpu_batch_crypto.Backends.Conform.{Computes, Answers, mapped, cuda_conforms}
use gpu_batch_crypto.Backends.Trip.{to_open, seal-open_records}
use gpu_batch_crypto.Backends.Signatures.{InRange, sign-check_signature}

-- A cipher that puts a tag of sixteen zeros in front.
abbrev tag : Bytes
tag = int_to_bytes 16 0

abbrev toy : Openssl
toy = record {
  encrypt = λ k n d a. 0 ∷ 0 ∷ 0 ∷ 0 ∷ 0 ∷ 0 ∷ 0 ∷ 0 ∷ 0 ∷ 0 ∷ 0 ∷ 0 ∷ 0 ∷ 0 ∷ 0 ∷ 0 ∷ d;
  decrypt = λ k n c a. some (drop 16 c);
  ecdsa = λ d h. (1, order - 1);
  sha256 = λ m. [];
  derive = λ d. [];
  verify = λ p r s d. true;
}

abbrev report : Report
report = record { submitted = 0; completed = 0; errors = 0; key_epoch = 1 }

-- The outputs of a kernel that computes the cipher.
abbrev output_at : Bool → List Item → ℕ → Bytes
output_at opening [] i = []
output_at true (it ∷ items) zero = drop 16 it.input
output_at false (it ∷ items) zero = toy.encrypt [] it.nonce it.input it.aad
output_at opening (it ∷ items) (suc i) = output_at opening items i

abbrev outcome : Bool → List Item → Outcome
outcome opening items = record {
  rc = 0;
  status = λ i. 0;
  output = output_at opening items;
  report = report;
}

-- Its state counts the calls that destroy.
abbrev lib : Library ℕ
lib = record {
  aes256gcm = λ opening d k items w. (outcome opening items, w);
  p256_sign = λ d k ds n w. (outcome false [], w);
  sha256_batch = λ d ms w. (outcome false [], w);
  p256_public_key = λ d k w. ((0, []), w);
  has_epochs = true;
  abi_version = 1;
  create = λ d w. (0, w);
  destroy = λ w. w + 1;
  set_p256_backend = λ n w. (0, w);
  get_p256_backend = λ w. ((0, 0), w);
  get_stats = λ w. (
    (
      1,
      record {
        calls = 0;
        submitted = 0;
        completed = 0;
        item_errors = 0;
        call_errors = 0;
        reserved_device_bytes = 0;
      },
    ),
    w,
  );
  key_put = λ s c k e w. ((0, 1), w);
  key_remove = λ s e w. ((0, 2), w);
  aead = λ opening s e items w. (outcome opening items, w);
  sign = λ s e ds n w. (outcome false [], w);
  hash = λ ms w. (outcome false [], w);
  export_public_key = λ s w. ((0, ([], 1)), w);
}

abbrev running : Runtime ℕ
running = record { open_handle = true; last_report = none; world = 0 }

close-IsDead_example : IsDead lib (Runtime.close lib running)
close-IsDead_example = close-IsDead lib running

-- The library computes the cipher.
toy-Answers :
    (opening : Bool) (key : Bytes) (out : Outcome) (i : ℕ) (items : List Item)
    → ((k : ℕ) → out.status k ≡ 0)
    → ((k : ℕ) → out.output (i + k) ≡ output_at opening items k)
    → Answers toy opening key out i items
toy-Answers opening key out i [] fine h = tt
toy-Answers true key out i (it ∷ items) fine h = (
  (fine i, ap out.output (omega arith) ∙ h 0),
  toy-Answers true key out (i + 1) items fine (λ k. ap out.output (omega arith) ∙ h (suc k)),
)
toy-Answers false key out i (it ∷ items) fine h = (
  (fine i, ap out.output (omega arith) ∙ h 0),
  toy-Answers false key out (i + 1) items fine (λ k. ap out.output (omega arith) ∙ h (suc k)),
)

length-drop : (n : ℕ) (b : Bytes) → length (drop n b) ≡ length b - n
length-drop zero b = omega arith
length-drop (suc n) [] = omega arith
length-drop (suc n) (x ∷ b) = omega (arith, length-drop n b)

-- The library with its limits: other arguments are refused.
abbrev strict : Library ℕ
strict = record lib {
  aes256gcm = λ opening d k items w. (
    record (outcome opening items) {
      rc =
          if accepts opening [] 0 items && leb (length items) max_batch && length k == 32
          then 0
          else 1;
    },
    w,
  );
}

toy-Computes : Computes toy strict 0
toy-Computes = record {
  succeeds = λ opening key items w v. ground (arith, v.accepted, v.few, v.key_size);
  answers = λ opening key items w v.
      toy-Answers opening key ((strict.aes256gcm opening 0 key items w).0) 0 items (λ k. refl)
        (λ k. ap (output_at opening items) (omega arith));
  grows = λ k n d a. omega arith;
  shrinks = λ k n c a d e. ground (arith, e, length-drop 16 c);
}

abbrev note : Record
note = record { nonce = bytes (int_to_bytes 12 7); payload = bytes (1 ∷ 2 ∷ []); aad = bytes [] }

abbrev key : Value
key = bytes (int_to_bytes 32 9)

abbrev sealed_note : Bytes
sealed_note = 0 ∷ 0 ∷ 0 ∷ 0 ∷ 0 ∷ 0 ∷ 0 ∷ 0 ∷ 0 ∷ 0 ∷ 0 ∷ 0 ∷ 0 ∷ 0 ∷ 0 ∷ 0 ∷ 1 ∷ 2 ∷ []

cuda_conforms_example :
    ((Cuda.seal strict 0 key (note ∷ []) 5).0 ≡ mapped (map some) (Cpu.seal toy key (note ∷ [])))
    × ((Cuda.open_records strict 0 key (note ∷ []) 5).0 ≡ Cpu.open_records toy key (note ∷ []))
cuda_conforms_example = cuda_conforms toy strict 0 toy-Computes key (note ∷ []) 5

record Facts : Type 0 where
  seals : Cpu.seal toy key (note ∷ []) ≡ ok (sealed_note ∷ [])
  runs :
      (aead_at lib false (int (pos 3)) (note ∷ []) (some (int (pos 1))) running).0
      ≡ ok (some sealed_note ∷ [])
  signs : Cpu.sign toy key (key ∷ []) ≡ ok (Cpu.raw_signature (1, order - 1) ∷ [])
  gives : (Runtime.sign lib (int (pos 3)) (key ∷ []) none running).0 ≡ ok (int_to_bytes 64 0 ∷ [])

facts : Facts
unfolding Cpu.seal Cpu.sign sealed key_bytes check_records check_record check_each check_key
    check_batch check_digests as_bytes as_byte_record as_digest int_to_bytes int_from_bytes aead_at
    live slot_of keyed_call keyed_epoch reported unless_empty Runtime.epoch_of aead aead_checked
    read_records collect read_output check_status raw output_size to_item Runtime.sign check_sign
    read_pieces pieces check_statuses joined
facts = record { seals = refl; runs = refl; signs = refl; gives = refl }

seal-open_records_example :
    Cpu.open_records toy key (to_open (note ∷ []) (sealed_note ∷ [])) ≡ ok (some (1 ∷ 2 ∷ []) ∷ [])
unfolding key_bytes
seal-open_records_example =
    seal-open_records toy (λ k n d a. refl) (λ k n d a. omega arith) key (note ∷ []) facts.seals

aead_at-IsBatch_example : IsBatch false (note ∷ []) (some sealed_note ∷ [])
aead_at-IsBatch_example =
    aead_at-IsBatch lib false (int (pos 3)) (note ∷ []) (some (int (pos 1))) running facts.runs

sign-IsSigned_example : IsSigned (key ∷ []) (int_to_bytes 64 0 ∷ [])
sign-IsSigned_example = sign-IsSigned lib (int (pos 3)) (key ∷ []) none running facts.gives

toy-InRange : (d : ℕ) (h : Bytes) → InRange (toy.ecdsa d h)
toy-InRange d h = (omega arith, omega arith, omega arith, omega arith)

sign-check_signature_example :
    map_result check_signature (map bytes (Cpu.raw_signature (1, order - 1) ∷ []))
    ≡ ok (Cpu.raw_signature (1, order - 1) ∷ [])
sign-check_signature_example = sign-check_signature toy key (key ∷ []) toy-InRange facts.signs
