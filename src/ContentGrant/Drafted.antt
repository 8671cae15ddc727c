-- ===== src/ContentGrant/Drafted.antt =====
-- The checks of `consume` of examples/content_grant.py on the grant that `publish` drafts.
use gpu_batch_crypto.Prelude.{
  ℕ, ◌+◌, ◌≤◌, ◌<◌, ◌≡◌, refl, Bytes, text, text_eq, text_eq_refl, ok, arith,
}
use gpu_batch_crypto.Python.Json.{Json, Fields, obj, field, str, end}
use gpu_batch_crypto.AccessBook.Checks.{hexdigest}
use gpu_batch_crypto.Backends.Cpu.{Openssl}
use gpu_batch_crypto.ContentGrant.{
  check_issuer, check_party, check_time, check_content, check_cipher, item, index, pick,
  metadata_keys, is_num, is_str, as_int, Request, metadata,
}
use gpu_batch_crypto.ContentGrant.Publish.{draft}

-- The checks of `consume` on what `publish` drafts.
module _ (o : Openssl) (nonce content : Bytes) (issued : ℕ) (later : Fields) where
  unfoldable pub drafted : Fields
  drafted = draft o.sha256 nonce content (hexdigest (o.sha256 content)) issued later

  pub metadata-drafted :
      metadata drafted
      ≡ metadata (draft o.sha256 nonce content (hexdigest (o.sha256 content)) issued end)
  unfolding drafted draft metadata metadata_keys pick item text_eq text
  metadata-drafted = refl

  pub check_issuer-drafted : check_issuer drafted ≡ ok tt
  unfolding drafted draft check_issuer item is_num is_str text_eq text
  check_issuer-drafted = refl

  pub check_party-drafted :
      (q : Request)
      → q.principal ≡ text "reader.example"
      → q.expected_content_id ≡ hexdigest (o.sha256 content)
      → check_party q drafted ≡ ok tt
  unfolding drafted draft check_party item is_str text_eq text
  check_party-drafted q e e' = rw (e, e', text_eq_refl (hexdigest (o.sha256 content))) refl

  pub check_time-drafted :
      (now : ℕ) → issued ≤ now → now < issued + 300 → check_time now drafted ≡ ok tt
  unfolding drafted draft check_time item as_int text_eq text
  check_time-drafted now h h' = ground (arith, h, h')

  pub check_content-drafted :
      check_content o.sha256 (hexdigest (o.sha256 content)) drafted content ≡ ok tt
  unfolding drafted draft check_content item as_int text_eq text
  check_content-drafted = ground (arith, text_eq_refl (hexdigest (o.sha256 content)))

  abbrev pub cipher : Json
  cipher = obj (
      field (text "algorithm") (str (text "AES-256-GCM")) (
        field (text "content_key_id") (str (text "content-key-1"))
          (field (text "nonce") (str (hexdigest nonce)) end)))

  pub encryption-drafted : item (text "encryption") drafted ≡ ok cipher
  unfolding drafted draft item text_eq text
  encryption-drafted = refl

  pub check_cipher-drafted : check_cipher cipher ≡ ok tt
  unfolding check_cipher index item is_str text_eq text
  check_cipher-drafted = refl

  pub nonce-drafted : index (text "nonce") cipher ≡ ok (str (hexdigest nonce))
  unfolding index item text_eq text
  nonce-drafted = refl
