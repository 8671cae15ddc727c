-- ===== src/ContentGrant/Publish.antt =====
-- `publish` of examples/content_grant.py, without a runtime; the nonce is a parameter.
use gpu_batch_crypto.Prelude.{ℕ, ◌+◌, [], ◌∷◌, ◌++◌, Text, Bytes, text, Result, ok, ◌>>=◌, length}
use gpu_batch_crypto.Python.Json.{Fields, str, num, obj, field, end}
use gpu_batch_crypto.Python.Values.{Value, bytes}
use gpu_batch_crypto.Core.{Record}
use gpu_batch_crypto.AccessBook.Checks.{canonical, hexdigest}
use gpu_batch_crypto.Backends.Cpu
use gpu_batch_crypto.Backends.Cpu.{Openssl}
use gpu_batch_crypto.ContentGrant.{Error, domain, metadata, one}

unfoldable pub terms : Text
terms = text "Example access terms; no payment implemented."

-- The grant, with the fields that are added later.
unfoldable pub draft : (Bytes → Bytes) → Bytes → Bytes → Text → ℕ → Fields → Fields
unfolding terms
draft sha256 nonce content id now later = field (text "version") (num 1) (
    field (text "publisher_id") (str (text "publisher.example")) (
      field (text "content_id") (str id) (
        field (text "content_length") (num (length content)) (
          field (text "content_type") (str (text "text/plain; charset=utf-8")) (
            field (text "principal") (str (text "reader.example")) (
              field (text "issued_at") (num now) (
                field (text "expires_at") (num (now + 300)) (
                  field (text "key_id") (str (text "publisher-signing-1")) (
                    field (text "encryption")
                      (obj (
                        field (text "algorithm") (str (text "AES-256-GCM")) (
                          field (text "content_key_id") (str (text "content-key-1"))
                            (field (text "nonce") (str (hexdigest nonce)) end))))
                      (field (text "terms_hash") (str (hexdigest (sha256 terms))) later))))))))))

-- grant["ciphertext_sha256"] = hash
unfoldable pub committing : Bytes → Fields
committing hash = field (text "ciphertext_sha256") (str (hexdigest hash)) end

-- The record that is sealed.
unfoldable pub to_seal : Bytes → Bytes → Fields → Record
to_seal nonce content meta = record {
  nonce = bytes nonce;
  payload = bytes content;
  aad = bytes (canonical (obj meta));
}

unfoldable pub publish :
    Openssl → Bytes → Bytes → Value → Value → ℕ → Result Error (Fields × Bytes × Bytes)
unfolding committing
publish o nonce content aes_key signing_key now = do
  id ← one (Cpu.sha256 o (bytes content ∷ []))
  meta ← metadata (draft o.sha256 nonce content (hexdigest id) now end)
  ciphertext ← one (Cpu.seal o aes_key (to_seal nonce content meta ∷ []))
  hash ← one (Cpu.sha256 o (bytes ciphertext ∷ []))
  let grant = draft o.sha256 nonce content (hexdigest id) now (committing hash)
  digest ← one (Cpu.sha256 o (bytes (domain ++ canonical (obj grant)) ∷ []))
  signature ← one (Cpu.sign o signing_key (bytes digest ∷ []))
  ok (grant, ciphertext, signature)
