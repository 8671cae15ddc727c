-- ===== src/ContentGrant/Published.antt =====
-- What `publish` of examples/content_grant.py gives.
use gpu_batch_crypto.Prelude.{
  ℕ, ◌≡◌, refl, sym, ◌∙◌, ap, List, [], ◌∷◌, ◌++◌, map, Bytes, Result, ok, err, ◌>>=◌, raise_if,
  Returns, Returns-bind, Returns-ok, Returns-mono, Returns-refl, length, arith, not, ◌==◌,
}
use gpu_batch_crypto.Python.Ints.{int_from_bytes}
use gpu_batch_crypto.Python.Json.{Fields, obj, end}
use gpu_batch_crypto.Python.Values
use gpu_batch_crypto.Python.Values.{Value, bytes}
use gpu_batch_crypto.Core.{as_bytes, as_digest, check_digests, check_messages, check_key, is_scalar}
use gpu_batch_crypto.Core.Bounds.{check_messages-bounds}
use gpu_batch_crypto.AccessBook.Checks.{canonical, hexdigest}
use gpu_batch_crypto.Backends.Cpu
use gpu_batch_crypto.Backends.Cpu.{Openssl, key_bytes, raw_signature, in_range, verify_p256}
use gpu_batch_crypto.ContentGrant.{domain, grant_digest, metadata, one, lifted, head}
use gpu_batch_crypto.ContentGrant.Publish.{draft, committing, to_seal, publish}

-- What `one` gives is the first of what the operation gives.
pub one-ok :
    {A : Type 0} (r : Result Values.Error (List A)) {x : A}
    → one r ≡ ok x
    → (xs : List A) × (r ≡ ok (x ∷ xs))
unfolding one lifted head
one-ok (err e) h = absurd (ground (arith, h))
one-ok (ok []) h = absurd (ground (arith, h))
one-ok (ok (y ∷ ys)) {x} h = (ys, ap (λ z. ok (z ∷ ys)) (ground (arith, h)))

single : (m : Bytes) (ms : List Bytes) → bytes m ∷ [] ≡ map bytes ms → ms ≡ m ∷ []
single m [] h = absurd (ground (arith, h))
single m (n ∷ []) h = ground (arith, h)
single m (n ∷ k ∷ ms) h = absurd (ground (arith, h))

one_digest :
    (key : Value) (d : Bytes) → Returns (λ hs. hs ≡ d ∷ []) (check_digests key (bytes d ∷ []))
unfolding check_digests as_digest as_bytes
one_digest key d =
    let P : List Bytes → Type 0 = λ hs. hs ≡ d ∷ [] in
    Returns-bind P (check_key key) _ (λ k _.
      Returns-bind P (raise_if (not (is_scalar (int_from_bytes k))) Values.value_error) _ (λ _ _.
        Returns-bind P (as_digest (bytes d)) (λ y. ok (y ∷ []))
          (λ y e.
            Returns-ok (λ z. z ∷ [] ≡ d ∷ []) (as_digest (bytes d))
              (Returns-bind (λ z. z ∷ [] ≡ d ∷ [])
                (raise_if (not (length d == 32)) Values.value_error) (λ _. ok d) (λ _ _. refl))
              e)))

-- The single result of a map.
mapped_one :
    {A : Type 0} (f : Bytes → A) (m : Bytes) (r : Result Values.Error (List Bytes)) {x : A}
    → Returns (λ ms. ms ≡ m ∷ []) r
    → one (r >>= λ ms. ok (map f ms)) ≡ ok x
    → x ≡ f m
unfolding one lifted head
mapped_one f m (err e) p h = absurd (ground (arith, h))
mapped_one f m (ok []) p h = absurd (ground (arith, h))
mapped_one f m (ok (n ∷ ms)) {x} p h =
    let same : n ≡ m = ground (arith, p) in
    let found : f n ≡ x = ground (arith, h) in sym found ∙ ap f same

module _ (o : Openssl) where
  -- The hash of one message.
  pub hashed : (m : Bytes) {d : Bytes} → one (Cpu.sha256 o (bytes m ∷ [])) ≡ ok d → d ≡ o.sha256 m
  unfolding Cpu.sha256
  hashed m = mapped_one o.sha256 m (check_messages (bytes m ∷ [])) (
      Returns-mono (λ ms. check_messages (bytes m ∷ []) ≡ ok ms) (λ ms. ms ≡ m ∷ [])
        (check_messages (bytes m ∷ []))
        (λ ms k. single m ms ((check_messages-bounds (bytes m ∷ []) k).0))
        (Returns-refl (check_messages (bytes m ∷ []))))

  -- The signature of one digest.
  pub signed :
      (key : Value) (d : Bytes) {s : Bytes}
      → one (Cpu.sign o key (bytes d ∷ [])) ≡ ok s
      → s ≡ raw_signature (o.ecdsa (int_from_bytes (key_bytes key)) d)
  unfolding Cpu.sign
  signed key d =
      mapped_one (λ h. raw_signature (o.ecdsa (int_from_bytes (key_bytes key)) h)) d
        (check_digests key (bytes d ∷ [])) (one_digest key d)

-- What `publish` gives.
pub record Published (o : Openssl) (nonce content : Bytes) (aes_key signing_key : Value) (now : ℕ)
    (x : Fields × Bytes × Bytes) : Type 0 where
  pub meta : Fields
  pub described :
      metadata (draft o.sha256 nonce content (hexdigest (o.sha256 content)) now end) ≡ ok meta
  pub sealed : one (Cpu.seal o aes_key (to_seal nonce content meta ∷ [])) ≡ ok (x.1)
  pub granted :
      x.0
      ≡ draft o.sha256 nonce content
          (hexdigest (o.sha256 content))
          now
          (committing (o.sha256 (x.1)))
  pub by_key :
      x.2
      ≡ raw_signature
          (o.ecdsa (int_from_bytes (key_bytes signing_key)) (grant_digest o.sha256 (x.0)))

pub publish-Published :
    (o : Openssl) (nonce content : Bytes) (aes_key signing_key : Value) (now : ℕ)
    → Returns
        (Published o nonce content aes_key signing_key now)
        (publish o nonce content aes_key signing_key now)
unfolding publish grant_digest
publish-Published o nonce content aes_key signing_key now =
    let P = Published o nonce content aes_key signing_key now in
    Returns-bind P (one (Cpu.sha256 o (bytes content ∷ []))) _ (λ id e₁.
      Returns-bind P (metadata (draft o.sha256 nonce content (hexdigest id) now end)) _ (λ meta e₂.
        Returns-bind P (one (Cpu.seal o aes_key (to_seal nonce content meta ∷ []))) _ (λ c e₃.
          Returns-bind P (one (Cpu.sha256 o (bytes c ∷ []))) _ (λ hash e₄.
            let grant = draft o.sha256 nonce content (hexdigest id) now (committing hash) in
            let message = domain ++ canonical (obj grant) in
            Returns-bind P (one (Cpu.sha256 o (bytes message ∷ []))) _ (λ digest e₅.
              Returns-bind P (one (Cpu.sign o signing_key (bytes digest ∷ []))) _ (λ s e₆.
                let name = hashed o content e₁ in
                record {
                  meta = meta;
                  described = rw (← name) e₂;
                  sealed = e₃;
                  granted = rw (name, hashed o c e₄) refl;
                  by_key =
                      signed o signing_key digest e₆
                      ∙ ap (λ d. raw_signature (o.ecdsa (int_from_bytes (key_bytes signing_key)) d))
                          (hashed o message e₅);
                }))))))
