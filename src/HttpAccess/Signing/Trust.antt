-- ===== src/HttpAccess/Signing/Trust.antt =====
-- What `Consumer.verify` of examples/http_access/signing.py keeps and what it accepts.
use mathlib.Core.Path.{subst}
use gpu_batch_crypto.Prelude.{
  ◌≤◌, ◌≡◌, refl, inl, inr, true, false, ◌&&◌, not, Option, none, some, List, [], ◌∷◌, Text, Bytes,
  text, text_eq, text_eq_sound, ok, err, raise_if, raise_if-ok, Returns, Result, ◌>>=◌, Bool,
  Returns-bind, Returns-ok, leb, if◌then◌else◌, length, length-append, arith, All, All-append,
  Option-cases, Bool-cases,
}
use gpu_batch_crypto.Python.Values.{Value}
use gpu_batch_crypto.AccessBook.Checks.{is_between}
use gpu_batch_crypto.HttpAccess.Signing.Consumer.{
  Claims, Jwt, Consumer, get, says, signing_key, decode_under, decode_by, decoded, kept, remember,
  fetched, fetch, check_claims, bad_token, wrong_holder, wrong_profile, verify_text, verify,
  Refusal,
}

-- A token that PyJWT decodes to the claims under the pinned key that its header names.
pub record Genuine (jwt : Jwt) (pins : List (Text × Bytes)) (token : Text) (claims : Claims)
    : Type 0 where
  pub header : Claims
  pub key : Bytes
  pub headed : jwt.header token ≡ some header
  pub trusted : signing_key pins header ≡ some key
  pub verified : jwt.decode token key ≡ some claims

module _ (jwt : Jwt) (pins : List (Text × Bytes)) where
  -- A cache of at most 4096 tokens, all of them genuine with their claims.
  unfoldable pub IsTrusted : List (Text × Claims) → Type 0
  IsTrusted cache = All (λ e. Genuine jwt pins e.0 e.1) cache × (length cache ≤ 4096)

  decoded-Genuine :
      (token : Text) {claims : Claims}
      → decoded jwt pins token ≡ some claims
      → Genuine jwt pins token claims
  unfolding decoded decode_by decode_under
  decoded-Genuine token h = elim (Option-cases (jwt.header token)) [
    | inl e ↦ absurd (ground (arith, e, h))
    | inr (header, e) ↦ elim (Option-cases (signing_key pins header)) [
      | inl e' ↦ absurd (ground (arith, e, e', h))
      | inr (key, e') ↦ record {
        header = header;
        key = key;
        headed = e;
        trusted = e';
        verified = ground (arith, e, e', h);
      }
    ]
  ]

  get-Genuine :
      (token : Text) (cache : List (Text × Claims)) {claims : Claims}
      → All (λ e. Genuine jwt pins e.0 e.1) cache
      → get token cache ≡ some claims
      → Genuine jwt pins token claims
  unfolding get
  get-Genuine token [] all h = absurd (ground (arith, h))
  get-Genuine token ((k, v) ∷ rest) {claims} all h = elim (Bool-cases (text_eq k token)) [
    | inl t ↦
        let same : v ≡ claims = ground (arith, t, h) in
        subst (λ x. Genuine jwt pins token x) same
          (subst (λ x. Genuine jwt pins x v) (text_eq_sound k token t) (all.0))
    | inr t ↦ get-Genuine token rest (all.1) (ground (arith, t, h))
  ]

  kept-IsTrusted :
      (token : Text) (claims : Claims) (cache : List (Text × Claims))
      → Genuine jwt pins token claims
      → IsTrusted cache
      → IsTrusted (kept token claims cache)
  unfolding kept IsTrusted
  kept-IsTrusted token claims cache g (all, few) = elim (Bool-cases (leb 4096 (length cache))) [
    | inl t ↦ (rw t ((g, tt), ground (arith)))
    | inr t ↦
        (rw t (
          All-append (λ e. Genuine jwt pins e.0 e.1) cache ((token, claims) ∷ []) all (g, tt),
          ground (arith, t, length-append cache ((token, claims) ∷ [])),
        ))
  ]

  -- What a lookup gives is genuine, and the cache stays so.
  fetched-Genuine :
      (token : Text) (hit made : Option Claims) (c : Consumer)
      → IsTrusted c.cache
      → ((claims : Claims) → hit ≡ some claims → Genuine jwt pins token claims)
      → ((claims : Claims) → made ≡ some claims → Genuine jwt pins token claims)
      → Returns (Genuine jwt pins token) (fetched token hit made c).0
        × IsTrusted ((fetched token hit made c).1).cache
  unfolding fetched remember
  fetched-Genuine token (some claims) made c inv f g = (f claims refl, inv)
  fetched-Genuine token none none c inv f g = (tt, inv)
  fetched-Genuine token none (some claims) c inv f g =
      (g claims refl, kept-IsTrusted token claims c.cache (g claims refl) inv)

  fetch-Genuine :
      (token : Text) (c : Consumer)
      → IsTrusted c.cache
      → Returns (Genuine jwt pins token) (fetch jwt pins token c).0
        × IsTrusted ((fetch jwt pins token c).1).cache
  unfolding fetch IsTrusted
  fetch-Genuine token c inv =
      fetched-Genuine token (get token c.cache) (decoded jwt pins token) c inv
        (λ x h. get-Genuine token c.cache (inv.0) h) (λ x h. decoded-Genuine token h)

  -- What `verify` accepts.
  pub record Accepted (token : Value) (buyer book : Text) (claims : Claims) : Type 0 where
    pub presented : Text
    pub is_text : token ≡ Value.str presented
    pub sized : is_between 1 4096 (length presented) ≡ true
    pub genuine : Genuine jwt pins presented claims
    pub of_buyer : says (text "sub") buyer claims ≡ true
    pub of_book : says (text "jti") book claims ≡ true
    pub to_read : says (text "scope") (text "content:read") claims ≡ true
    pub local : says (text "profile") (text "local-http-v1") claims ≡ true

  accepted :
      (token buyer book : Text) (claims : Claims)
      → is_between 1 4096 (length token) ≡ true
      → Genuine jwt pins token claims
      → Returns (Accepted (Value.str token) buyer book) (check_claims buyer book claims)
  unfolding check_claims
  accepted token buyer book claims sized g =
      let P = Accepted (Value.str token) buyer book in
      let mine = says (text "sub") buyer claims && says (text "jti") book claims in
      let scoped =
        says (text "scope") (text "content:read") claims
        && says (text "profile") (text "local-http-v1") claims in
      Returns-bind P (raise_if (not mine) wrong_holder)
        (λ _. raise_if (not scoped) wrong_profile >>= λ _. ok claims)
        (λ _ e.
          Returns-bind P (raise_if (not scoped) wrong_profile) (λ _. ok claims)
            (λ _ e'.
              let m = raise_if-ok (not mine) wrong_holder (cc) in
              let n = raise_if-ok (not scoped) wrong_profile (cc) in
              record {
                presented = token;
                is_text = refl;
                sized = sized;
                genuine = g;
                of_buyer = ground (arith, m);
                of_book = ground (arith, m);
                to_read = ground (arith, n);
                local = ground (arith, n);
              }))

  -- A result that is accepted if there is one, and a cache that is trusted.
  Sound : Value → Text → Text → Result Refusal Claims × Consumer → Type 0
  Sound token buyer book x = Returns (Accepted token buyer book) (x.0) × IsTrusted (x.1.cache)

  verify_text-Sound :
      (token buyer book : Text) (c : Consumer)
      → is_between 1 4096 (length token) ≡ true
      → IsTrusted c.cache
      → Sound (Value.str token) buyer book (verify_text jwt pins token buyer book c)
  unfolding verify_text Sound
  verify_text-Sound token buyer book c sized inv =
      let (g, inv') = fetch-Genuine token c inv in
      (
        Returns-bind (Accepted (Value.str token) buyer book) ((fetch jwt pins token c).0)
            (check_claims buyer book)
            (λ claims h.
              accepted token buyer book claims sized
                (Returns-ok (Genuine jwt pins token) ((fetch jwt pins token c).0) g h)),
        inv',
      )

  verify-Sound :
      (token : Value) (buyer book : Text) (c : Consumer)
      → IsTrusted c.cache
      → Sound token buyer book (verify jwt pins token buyer book c)
  unfolding verify Sound
  verify-Sound (Value.bytes b) buyer book c inv = (tt, inv)
  verify-Sound (Value.int n) buyer book c inv = (tt, inv)
  verify-Sound Value.other buyer book c inv = (tt, inv)
  verify-Sound (Value.str t) buyer book c inv = go (is_between 1 4096 (length t)) refl
    where
      go :
          (b : Bool)
          → is_between 1 4096 (length t) ≡ b
          → Sound
              (Value.str t)
              buyer
              book
              (if b then verify_text jwt pins t buyer book c else (err bad_token, c))
      go false e = (tt, inv)
      go true e = verify_text-Sound t buyer book c e inv

-- From a cache of at most 4096 tokens, all genuine with their claims, a token that `verify` accepts
-- is a text of 1 to 4096 characters that PyJWT decodes to the returned claims under the pinned key
-- its header names, and these name the buyer, the book, the scope `content:read` and the profile.
pub verify-Accepted :
    (jwt : Jwt) (pins : List (Text × Bytes)) (token : Value) (buyer book : Text) (c : Consumer)
    {claims : Claims}
    → IsTrusted jwt pins c.cache
    → (verify jwt pins token buyer book c).0 ≡ ok claims
    → Accepted jwt pins token buyer book claims
unfolding Sound
verify-Accepted jwt pins token buyer book c inv h =
    Returns-ok (Accepted jwt pins token buyer book) ((verify jwt pins token buyer book c).0)
      ((verify-Sound jwt pins token buyer book c inv).0) h

-- `verify` keeps the cache at 4096 tokens at most, each with the claims that PyJWT decodes under
-- the pinned key its header names, whatever token is presented and whether or not it is refused.
pub verify-IsTrusted :
    (jwt : Jwt) (pins : List (Text × Bytes)) (token : Value) (buyer book : Text) (c : Consumer)
    → IsTrusted jwt pins c.cache
    → IsTrusted jwt pins ((verify jwt pins token buyer book c).1).cache
unfolding Sound
verify-IsTrusted jwt pins token buyer book c inv = (verify-Sound jwt pins token buyer book c inv).1
