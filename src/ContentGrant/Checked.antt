-- ===== src/ContentGrant/Checked.antt =====
-- The checks of `consume` in examples/content_grant.py, one by one.
use gpu_batch_crypto.Prelude.{
  ℕ, ◌≤◌, ◌<◌, ◌≡◌, ap, sym, ◌∙◌, true, ◌&&◌, not, not-false, Text, Bytes, text, text_eq,
  text_eq_sound, Result, ok, ◌>>=◌, raise_if, raise_if-ok, Returns, Returns-bind, Returns-mono,
  Returns-refl, Bool, leb, ltb, ◌==◌, length, arith,
}
use gpu_batch_crypto.Python.Json.{Json, Fields, null, str, num, arr, obj}
use gpu_batch_crypto.AccessBook.Checks.{hexdigest}
use gpu_batch_crypto.ContentGrant.{
  Error, Request, item, is_str, is_num, as_int, check_issuer, check_party, check_time,
  check_ciphertext, check_content, wrong_principal, not_valid, content_mismatch,
  ciphertext_mismatch, unexpected_issuer,
}

is_str_sound : (t : Text) (v : Json) → is_str t v ≡ true → v ≡ str t
unfolding is_str
is_str_sound t (str u) h = ap str (text_eq_sound u t h)
is_str_sound t null h = cc
is_str_sound t (num n) h = cc
is_str_sound t (arr xs) h = cc
is_str_sound t (obj fs) h = cc

as_int_sound : (e : Error) (v : Json) {n : ℕ} → as_int e v ≡ ok n → v ≡ num n
unfolding as_int
as_int_sound e (num m) h = ground (arith, h)
as_int_sound e (str u) h = cc
as_int_sound e null h = cc
as_int_sound e (arr xs) h = cc
as_int_sound e (obj fs) h = cc

-- The grant has that value under the key.
abbrev pub Has : Fields → Text → Json → Type 0
Has grant key v = item key grant ≡ ok v

-- A text that a check compares, and what comes after the check.
module _ (grant : Fields) (key t : Text) (e : Error) {B : Type 0} (P : B → Type 0)
    (rest : Result Error B) (then_P : Has grant key (str t) → Returns P rest) where
  expect-Returns : Returns P (item key grant >>= λ v. raise_if (not (is_str t v)) e >>= λ _. rest)
  expect-Returns =
      Returns-bind P (item key grant) (λ v. raise_if (not (is_str t v)) e >>= λ _. rest)
        (λ v h.
          Returns-bind P (raise_if (not (is_str t v)) e) (λ _. rest)
            (λ _ k.
              let same : is_str t v ≡ true = not-false (raise_if-ok (not (is_str t v)) e (cc)) in
              then_P (h ∙ ap ok (is_str_sound t v same))))

-- A text that is compared last.
expect_last-Returns :
    (grant : Fields) (key t : Text) (e : Error)
    → Returns (λ _. Has grant key (str t)) (item key grant >>= λ v. raise_if (not (is_str t v)) e)
expect_last-Returns grant key t e =
    let P : Unit {0} → Type 0 = λ _. Has grant key (str t) in
    Returns-bind P (item key grant) (λ v. raise_if (not (is_str t v)) e)
      (λ v h.
        Returns-mono (λ _. raise_if (not (is_str t v)) e ≡ ok tt) P (raise_if (not (is_str t v)) e)
          (λ _ k.
            let same : is_str t v ≡ true = not-false (raise_if-ok (not (is_str t v)) e k) in
            h ∙ ap ok (is_str_sound t v same))
          (Returns-refl (raise_if (not (is_str t v)) e)))

abbrev pub Party : Request → Fields → Type 0
Party q grant =
    Has grant (text "principal") (str q.principal)
    × Has grant (text "content_id") (str q.expected_content_id)

pub check_party-Party :
    (q : Request) (grant : Fields) → Returns (λ _. Party q grant) (check_party q grant)
unfolding check_party
check_party-Party q grant =
    expect-Returns grant (text "principal") q.principal wrong_principal (λ _. Party q grant)
      (item (text "content_id") grant >>= λ v.
        raise_if (not (is_str q.expected_content_id v)) wrong_principal)
      (λ p.
        Returns-mono (λ _. Has grant (text "content_id") (str q.expected_content_id))
          (λ _. Party q grant)
          (item (text "content_id") grant >>= λ v.
            raise_if (not (is_str q.expected_content_id v)) wrong_principal)
          (λ _ c. (p, c))
          (expect_last-Returns grant (text "content_id") q.expected_content_id wrong_principal))

-- The two times of the grant, around now.
pub record Current (now : ℕ) (grant : Fields) : Type 0 where
  pub issued : ℕ
  pub expires : ℕ
  pub issued_at : Has grant (text "issued_at") (num issued)
  pub expires_at : Has grant (text "expires_at") (num expires)
  pub started : issued ≤ now
  pub running : now < expires

-- A number that a check reads, and what comes after.
number-Returns :
    (grant : Fields) (key : Text) (e : Error) {B : Type 0} (P : B → Type 0)
    (rest : ℕ → Result Error B)
    → ((n : ℕ) → Has grant key (num n) → Returns P (rest n))
    → Returns P (item key grant >>= λ v. as_int e v >>= rest)
number-Returns grant key e P rest f =
    Returns-bind P (item key grant) (λ v. as_int e v >>= rest)
      (λ v h. Returns-bind P (as_int e v) rest (λ n k. f n (h ∙ ap ok (as_int_sound e v k))))

pub check_time-Current :
    (now : ℕ) (grant : Fields) → Returns (λ _. Current now grant) (check_time now grant)
unfolding check_time
check_time-Current now grant =
    let P : Unit {0} → Type 0 = λ _. Current now grant in
    let last : ℕ → ℕ → Result Error (Unit {0}) =
      λ i e. raise_if (not (leb i now && ltb now e)) not_valid in
    number-Returns grant (text "issued_at") not_valid P
      (λ i. item (text "expires_at") grant >>= λ v. as_int not_valid v >>= last i)
      (λ i hi. number-Returns grant (text "expires_at") not_valid P (last i) (λ e he.
        Returns-mono (λ _. last i e ≡ ok tt) P (last i e)
          (λ _ k.
            let b = raise_if-ok (not (leb i now && ltb now e)) not_valid k in
            record {
              issued = i;
              expires = e;
              issued_at = hi;
              expires_at = he;
              started = ground (arith, b);
              running = ground (arith, b);
            })
          (Returns-refl (last i e))))

-- What the content is.
abbrev pub Whole : (Bytes → Bytes) → Text → Fields → Bytes → Type 0
Whole sha256 expected grant content =
    Has grant (text "content_length") (num (length content))
    × (hexdigest (sha256 content) ≡ expected)

pub check_content-Whole :
    (sha256 : Bytes → Bytes) (expected : Text) (grant : Fields) (content : Bytes)
    → Returns
        (λ _. Whole sha256 expected grant content)
        (check_content sha256 expected grant content)
unfolding check_content
check_content-Whole sha256 expected grant content =
    let P : Unit {0} → Type 0 = λ _. Whole sha256 expected grant content in
    let same : ℕ → Bool =
      λ n. length content == n && text_eq (hexdigest (sha256 content)) expected in
    number-Returns grant (text "content_length") content_mismatch P
      (λ n. raise_if (not (same n)) content_mismatch)
      (λ n h.
        Returns-mono (λ _. raise_if (not (same n)) content_mismatch ≡ ok tt) P
          (raise_if (not (same n)) content_mismatch)
          (λ _ k.
            let b = not-false (raise_if-ok (not (same n)) content_mismatch k) in
            let len : length content ≡ n = ground (arith, b) in
            let hash : text_eq (hexdigest (sha256 content)) expected ≡ true = ground (arith, b) in
            (h ∙ ap (λ m. ok (num m)) (sym len), text_eq_sound _ expected hash))
          (Returns-refl (raise_if (not (same n)) content_mismatch)))

is_num_sound : (n : ℕ) (v : Json) → is_num n v ≡ true → v ≡ num n
unfolding is_num
is_num_sound n (num m) h = ap num (ground (arith, h))
is_num_sound n (str u) h = cc
is_num_sound n null h = cc
is_num_sound n (arr xs) h = cc
is_num_sound n (obj fs) h = cc

-- The format and the publisher.
abbrev pub Issuer : Fields → Type 0
Issuer grant =
    Has grant (text "version") (num 1)
    × Has grant (text "publisher_id") (str (text "publisher.example"))
    × Has grant (text "key_id") (str (text "publisher-signing-1"))

pub check_issuer-Issuer : (grant : Fields) → Returns (λ _. Issuer grant) (check_issuer grant)
unfolding check_issuer
check_issuer-Issuer grant =
    let P : Unit {0} → Type 0 = λ _. Issuer grant in
    let last : Result Error (Unit {0}) = item (text "key_id") grant >>= λ v.
    raise_if (not (is_str (text "publisher-signing-1") v)) unexpected_issuer in
    let rest : Result Error (Unit {0}) = item (text "publisher_id") grant >>= λ v.
    raise_if (not (is_str (text "publisher.example") v)) unexpected_issuer >>= λ _. last in
    Returns-bind P (item (text "version") grant)
      (λ v. raise_if (not (is_num 1 v)) unexpected_issuer >>= λ _. rest)
      (λ v h.
        Returns-bind P (raise_if (not (is_num 1 v)) unexpected_issuer) (λ _. rest)
          (λ _ k.
            let one : is_num 1 v ≡ true =
              not-false (raise_if-ok (not (is_num 1 v)) unexpected_issuer (cc)) in
            expect-Returns grant (text "publisher_id") (text "publisher.example") unexpected_issuer
              P last
              (λ p.
                Returns-mono (λ _. Has grant (text "key_id") (str (text "publisher-signing-1"))) P
                  last (λ _ c. (h ∙ ap ok (is_num_sound 1 v one), p, c))
                  (expect_last-Returns grant (text "key_id") (text "publisher-signing-1")
                    unexpected_issuer))))

pub check_ciphertext-Has :
    (sha256 : Bytes → Bytes) (ciphertext : Bytes) (grant : Fields)
    → Returns
        (λ _. Has grant (text "ciphertext_sha256") (str (hexdigest (sha256 ciphertext))))
        (check_ciphertext sha256 ciphertext grant)
unfolding check_ciphertext
check_ciphertext-Has sha256 ciphertext grant =
    expect_last-Returns grant (text "ciphertext_sha256") (hexdigest (sha256 ciphertext))
      ciphertext_mismatch
