-- ===== src/ContentGrant/Tests.antt =====
-- A grant of examples/content_grant.py, published and consumed over a small OpenSSL.
use gpu_batch_crypto.Prelude.{
  ◌-◌, ◌<◌, ◌≡◌, refl, true, some, [], ◌∷◌, Bytes, text, text_eq, Result, ok, err, drop, arith, All,
}
use gpu_batch_crypto.Python.Ints.{int_to_bytes, int_from_bytes, to_decimal}
use gpu_batch_crypto.Python.Json.{Fields, end, dumps, sort_keys, text_le}
use gpu_batch_crypto.Python.Values.{Value, bytes}
use gpu_batch_crypto.Core.{
  order, as_bytes, as_byte_record, as_digest, check_key, check_batch, check_record, check_each,
  check_records, check_digests, check_messages,
}
use gpu_batch_crypto.AccessBook.Checks.{canonical, hexdigest}
use gpu_batch_crypto.Backends.Cpu
use gpu_batch_crypto.Backends.Cpu.{Openssl, key_bytes, raw_signature, sealed}
use gpu_batch_crypto.ContentGrant.{
  Error, item, domain, metadata, metadata_keys, pick, one, lifted, head, consume,
}
use gpu_batch_crypto.ContentGrant.Consume.{Accepted, consume-Accepted}
use gpu_batch_crypto.ContentGrant.Publish.{terms, draft, committing, to_seal, publish}
use gpu_batch_crypto.ContentGrant.Trip.{Sound, reader, publish-consume}

abbrev zeros : Bytes
zeros = 0 ∷ 0 ∷ 0 ∷ 0 ∷ 0 ∷ 0 ∷ 0 ∷ 0 ∷ 0 ∷ 0 ∷ 0 ∷ 0 ∷ 0 ∷ 0 ∷ 0 ∷ 0 ∷ []

-- A cipher that puts a tag of sixteen zeros in front, and a constant hash.
abbrev toy : Openssl
toy = record {
  encrypt = λ k n d a. 0 ∷ 0 ∷ 0 ∷ 0 ∷ 0 ∷ 0 ∷ 0 ∷ 0 ∷ 0 ∷ 0 ∷ 0 ∷ 0 ∷ 0 ∷ 0 ∷ 0 ∷ 0 ∷ d;
  decrypt = λ k n c a. some (drop 16 c);
  ecdsa = λ d h. (1, order - 1);
  sha256 = λ m. 1 ∷ 2 ∷ 3 ∷ 4 ∷ 5 ∷ 6 ∷ 7 ∷ 8 ∷ 9 ∷ 10 ∷ 11 ∷ 12 ∷ 13 ∷ 14 ∷ 15 ∷ 16 ∷ zeros;
  derive = λ d. 4 ∷ [];
  verify = λ p r s d. true;
}

toy-Sound : Sound toy
toy-Sound = record {
  opens = λ k n d a. refl;
  grows = λ k n d a. omega arith;
  hash_size = λ m. refl;
  range = λ d h. (omega arith, omega arith, omega arith, omega arith);
  verifies = λ d h. refl;
}

abbrev nonce : Bytes
nonce = 1 ∷ 2 ∷ 3 ∷ 4 ∷ 5 ∷ 6 ∷ 7 ∷ 8 ∷ 9 ∷ 10 ∷ 11 ∷ 255 ∷ []

nonce-octets : All (λ b. b < 256) nonce
nonce-octets = (
  omega arith,
  (
    omega arith,
    (
      omega arith,
      (
        omega arith,
        (
          omega arith,
          (
            omega arith,
            (
              omega arith,
              (omega arith, (omega arith, (omega arith, (omega arith, (omega arith, tt))))),
            ),
          ),
        ),
      ),
    ),
  ),
)

abbrev content : Bytes
content = text "hi"

abbrev key : Value
key = bytes (int_to_bytes 32 5)

abbrev made_of : Result Error (Fields × Bytes × Bytes) → Fields × Bytes × Bytes
made_of (ok x) = x
made_of (err e) = (end, [], [])

abbrev made : Fields × Bytes × Bytes
made = made_of (publish toy nonce content key key 100)

publishes : publish toy nonce content key key 100 ≡ ok (made.0, made.1, made.2)
unfolding publish one lifted head metadata metadata_keys pick item draft committing to_seal terms
    domain Cpu.sha256 Cpu.seal Cpu.sign sealed key_bytes check_records check_each check_record
    as_byte_record as_bytes check_digests as_digest check_messages check_key check_batch
    int_from_bytes int_to_bytes raw_signature text text_eq canonical dumps sort_keys to_decimal
    hexdigest text_le
publishes = refl

names : Cpu.public_key toy key ≡ ok (4 ∷ [])
unfolding Cpu.public_key check_digests check_key check_batch as_bytes int_from_bytes int_to_bytes
    key_bytes
names = refl

-- At the last second.
consumes :
    consume toy (reader toy content key (4 ∷ []) 399) made.0 made.1 (bytes made.2) ≡ ok content
consumes =
    publish-consume toy toy-Sound nonce content key key 100 399 nonce-octets (omega arith)
      (omega arith) names publishes

publish-consume_example :
    consume toy (reader toy content key (4 ∷ []) 399) made.0 made.1 (bytes made.2) ≡ ok content
publish-consume_example =
    publish-consume toy toy-Sound nonce content key key 100 399 nonce-octets (omega arith)
      (omega arith) names publishes

consume-Accepted_example :
    Accepted toy (reader toy content key (4 ∷ []) 399) made.0 made.1 (bytes made.2) content
consume-Accepted_example =
    consume-Accepted toy (reader toy content key (4 ∷ []) 399) made.0 made.1 (bytes made.2) consumes
