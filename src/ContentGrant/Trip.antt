-- ===== src/ContentGrant/Trip.antt =====
-- A grant of examples/content_grant.py from `publish` to `consume`.
use gpu_batch_crypto.Prelude.{
  ℕ, ◌+◌, ◌-◌, ◌≤◌, ◌<◌, ◌≡◌, refl, true, min, some, [], ◌∷◌, ◌++◌, Bytes, text, text_eq,
  text_eq_refl, ok, Returns-bind, Returns-ok, length, arith, All,
}
use gpu_batch_crypto.Python.Ints.{int_from_bytes}
use gpu_batch_crypto.Python.Json.{Fields, obj, str, end}
use gpu_batch_crypto.Python.Values.{Value, bytes}
use gpu_batch_crypto.Core.{order, check_digests}
use gpu_batch_crypto.AccessBook.Checks.{canonical, hexdigest}
use gpu_batch_crypto.Backends.Cpu
use gpu_batch_crypto.Backends.Cpu.{Openssl, key_bytes, raw_signature, in_range, verify_p256}
use gpu_batch_crypto.Backends.Trip.{to_open, seal-open_records}
use gpu_batch_crypto.Backends.Signatures.{InRange, length-raw_signature, scalar_r-raw, scalar_s-raw}
use gpu_batch_crypto.Jws.{scalar_r, scalar_s}
use gpu_batch_crypto.ContentGrant.{
  check_ciphertext, item, is_str, as_nonce, Request, domain, grant_digest, metadata, one, lifted,
  head, decrypt, authentic, consume,
}
use gpu_batch_crypto.ContentGrant.Publish.{draft, committing, to_seal, publish}
use gpu_batch_crypto.ContentGrant.Hex.{fromhex-hexdigest}
use gpu_batch_crypto.ContentGrant.Published.{one-ok, Published, publish-Published}
use gpu_batch_crypto.ContentGrant.Drafted.{
  drafted, metadata-drafted, check_issuer-drafted, check_party-drafted, check_time-drafted,
  check_content-drafted, encryption-drafted, check_cipher-drafted, nonce-drafted,
}

-- What is assumed of OpenSSL: opening undoes sealing, which adds sixteen bytes; SHA-256 has 32
-- bytes; the scalars of ECDSA are in range, and the signature verifies with the low s.
pub record Sound (o : Openssl) : Type 0 where
  pub opens : (k n d a : Bytes) → o.decrypt k n (o.encrypt k n d a) a ≡ some d
  pub grows : (k n d a : Bytes) → length (o.encrypt k n d a) ≡ length d + 16
  pub hash_size : (m : Bytes) → length (o.sha256 m) ≡ 32
  pub range : (d : ℕ) (h : Bytes) → InRange (o.ecdsa d h)
  pub verifies :
      (d : ℕ) (h : Bytes)
      → o.verify (o.derive d) (o.ecdsa d h).0 (min (o.ecdsa d h).1 (order - (o.ecdsa d h).1)) h
        ≡ true

-- What the reader of the example asks.
abbrev pub reader : Openssl → Bytes → Value → Bytes → ℕ → Request
reader o content aes_key public now = record {
  aes_key = aes_key;
  trusted_public = bytes public;
  expected_content_id = hexdigest (o.sha256 content);
  now = now;
  principal = text "reader.example";
}

-- A signature of the publisher verifies, under what ECDSA promises.
raw-verify_p256 :
    (o : Openssl) (public d : Bytes) (r s : ℕ)
    → InRange (r, s)
    → length d ≡ 32
    → o.verify public r (min s (order - s)) d ≡ true
    → verify_p256 o (bytes public) (bytes d) (bytes (raw_signature (r, s))) ≡ true
unfolding verify_p256 in_range scalar_r scalar_s
raw-verify_p256 o public d r s range n v =
    let (r_low, r_high, s_low, s_high) = range in
    rw (n, length-raw_signature r s, scalar_r-raw r s r_high, scalar_s-raw r s s_high, v)
      (ground (arith, r_low, r_high, s_low, s_high))

as_nonce-hexdigest :
    (nonce : Bytes) → All (λ b. b < 256) nonce → as_nonce (str (hexdigest nonce)) ≡ ok nonce
unfolding as_nonce
as_nonce-hexdigest nonce h = rw (as_nonce, fromhex-hexdigest nonce h) refl

module _ (o : Openssl) (nonce content c : Bytes) (issued : ℕ) where
  abbrev given : Fields
  given = drafted o nonce content issued (committing (o.sha256 c))

  check_ciphertext-drafted : check_ciphertext o.sha256 c given ≡ ok tt
  unfolding drafted draft committing check_ciphertext item is_str text_eq text
  check_ciphertext-drafted = ground (arith, text_eq_refl (hexdigest (o.sha256 c)))

  -- The content comes back from what was sealed.
  decrypt-drafted :
      ((k n d a : Bytes) → o.decrypt k n (o.encrypt k n d a) a ≡ some d)
      → ((k n d a : Bytes) → length (o.encrypt k n d a) ≡ length d + 16)
      → (aes_key : Value) (meta : Fields)
      → metadata (draft o.sha256 nonce content (hexdigest (o.sha256 content)) issued end) ≡ ok meta
      → one (Cpu.seal o aes_key (to_seal nonce content meta ∷ [])) ≡ ok c
      → decrypt o aes_key nonce c given ≡ ok content
  unfolding decrypt one lifted head authentic to_seal to_open key_bytes
  decrypt-drafted opens grows aes_key meta described sealed =
      let (cs, e) = one-ok (Cpu.seal o aes_key (to_seal nonce content meta ∷ [])) sealed in
      let back = seal-open_records o opens grows aes_key (to_seal nonce content meta ∷ []) e in
      rw (metadata-drafted o nonce content issued (committing (o.sha256 c)), described, back) refl

module _ (o : Openssl) (sound : Sound o) (nonce content : Bytes) (aes_key signing_key : Value)
    (issued now : ℕ) where
  abbrev point : Bytes
  point = o.derive (int_from_bytes (key_bytes signing_key))

  signature-valid :
      (grant : Fields)
      → verify_p256 o (bytes point) (bytes (grant_digest o.sha256 grant)) (
          bytes (
            raw_signature
              (o.ecdsa (int_from_bytes (key_bytes signing_key)) (grant_digest o.sha256 grant))))
        ≡ true
  unfolding grant_digest
  signature-valid grant =
      let d = int_from_bytes (key_bytes signing_key) in
      let h = grant_digest o.sha256 grant in
      raw-verify_p256 o (o.derive d) h ((o.ecdsa d h).0) ((o.ecdsa d h).1) (sound.range d h)
        (sound.hash_size (domain ++ canonical (obj grant))) (sound.verifies d h)

  consume-given :
      (c : Bytes) (meta : Fields) (signature : Bytes)
      → All (λ b. b < 256) nonce
      → issued ≤ now
      → now < issued + 300
      → metadata (draft o.sha256 nonce content (hexdigest (o.sha256 content)) issued end) ≡ ok meta
      → one (Cpu.seal o aes_key (to_seal nonce content meta ∷ [])) ≡ ok c
      → verify_p256 o
          (bytes point)
          (bytes (grant_digest o.sha256 (given o nonce content c issued)))
          (bytes signature)
        ≡ true
      → consume o
          (reader o content aes_key point now)
          (given o nonce content c issued)
          c
          (bytes signature)
        ≡ ok content
  unfolding consume
  consume-given c meta signature octets started running described sealed valid =
      let later = committing (o.sha256 c) in
      rw
        (
          valid,
          check_issuer-drafted o nonce content issued later,
          check_party-drafted o nonce content issued later (reader o content aes_key point now) refl
              refl,
          check_time-drafted o nonce content issued later now started running,
          encryption-drafted o nonce content issued later,
          check_cipher-drafted o nonce content issued later,
          check_ciphertext-drafted o nonce content c issued,
          nonce-drafted o nonce content issued later,
          as_nonce-hexdigest nonce octets,
          decrypt-drafted o nonce content c issued sound.opens sound.grows aes_key meta described
              sealed,
          check_content-drafted o nonce content issued later,
        )
        refl

public_key-point :
    (o : Openssl) (key : Value) {public : Bytes}
    → Cpu.public_key o key ≡ ok public
    → public ≡ o.derive (int_from_bytes (key_bytes key))
unfolding Cpu.public_key
public_key-point o key =
    let P : Bytes → Type 0 = λ b. b ≡ o.derive (int_from_bytes (key_bytes key)) in
    Returns-ok P (Cpu.public_key o key) (
      Returns-bind P (check_digests key []) (λ _. ok (o.derive (int_from_bytes (key_bytes key))))
        (λ _ _. refl))

-- With such an OpenSSL, what `publish` returns under a nonce of bytes is accepted by the reader for
-- the 300 seconds from the time of publishing, under the public key of the signing key and the hash
-- of the content, and gives back the content.
pub publish-consume :
    (o : Openssl)
    → Sound o
    → (nonce content : Bytes) (aes_key signing_key : Value) (issued now : ℕ) {grant : Fields}
      {ciphertext signature public : Bytes}
    → All (λ b. b < 256) nonce
    → issued ≤ now
    → now < issued + 300
    → Cpu.public_key o signing_key ≡ ok public
    → publish o nonce content aes_key signing_key issued ≡ ok (grant, ciphertext, signature)
    → consume o (reader o content aes_key public now) grant ciphertext (bytes signature)
      ≡ ok content
unfolding drafted
publish-consume o sound nonce content aes_key signing_key issued now {grant} {ciphertext}
      {signature} {public} octets started running named published =
    let p =
      Returns-ok (Published o nonce content aes_key signing_key issued)
        (publish o nonce content aes_key signing_key issued)
        (publish-Published o nonce content aes_key signing_key issued) published in
    let same : grant ≡ given o nonce content ciphertext issued = p.granted in
    let by : signature ≡ by_key_of grant = p.by_key in
    let key : public ≡ point o sound nonce content aes_key signing_key issued now =
      public_key-point o signing_key named in
    let valid =
      signature-valid o sound nonce content aes_key signing_key issued now
        (given o nonce content ciphertext issued) in
    rw (key, same)
      (consume-given o sound nonce content aes_key signing_key issued now ciphertext p.meta
        signature octets started running p.described p.sealed (rw (by, same) valid))
  where
    by_key_of : Fields → Bytes
    by_key_of g =
        raw_signature (o.ecdsa (int_from_bytes (key_bytes signing_key)) (grant_digest o.sha256 g))
