-- ===== src/ContentGrant/Consume.antt =====
-- What `consume` of examples/content_grant.py accepts.
use gpu_batch_crypto.Prelude.{
  ◌≡◌, true, not, not-false, Bytes, text, ok, raise_if, raise_if-ok, Returns, Returns-bind,
  Returns-ok,
}
use gpu_batch_crypto.Python.Json.{Fields, str}
use gpu_batch_crypto.Python.Values.{Value, bytes}
use gpu_batch_crypto.AccessBook.Checks.{hexdigest}
use gpu_batch_crypto.Backends.Cpu.{Openssl, verify_p256}
use gpu_batch_crypto.ContentGrant.{
  Request, item, index, grant_digest, as_nonce, check_issuer, check_party, check_time, check_cipher,
  check_ciphertext, check_content, decrypt, consume, invalid_signature,
}
use gpu_batch_crypto.ContentGrant.Checked.{
  Has, Party, Current, Whole, Issuer, check_party-Party, check_time-Current, check_content-Whole,
  check_issuer-Issuer, check_ciphertext-Has,
}

-- What `consume` accepts, and what it gives.
pub record Accepted (o : Openssl) (q : Request) (grant : Fields) (ciphertext : Bytes)
    (signature : Value) (content : Bytes) : Type 0 where
  pub signed : verify_p256 o q.trusted_public (bytes (grant_digest o.sha256 grant)) signature ≡ true
  pub issuer : Issuer grant
  pub party : Party q grant
  pub current : Current q.now grant
  pub committed : Has grant (text "ciphertext_sha256") (str (hexdigest (o.sha256 ciphertext)))
  pub nonce : Bytes
  pub opened : decrypt o q.aes_key nonce ciphertext grant ≡ ok content
  pub whole : Whole o.sha256 q.expected_content_id grant content

module _ (o : Openssl) (q : Request) (grant : Fields) (ciphertext : Bytes) (signature : Value) where
  accepted :
      Returns (Accepted o q grant ciphertext signature) (consume o q grant ciphertext signature)
  unfolding consume
  accepted =
      let P = Accepted o q grant ciphertext signature in
      let valid = verify_p256 o q.trusted_public (bytes (grant_digest o.sha256 grant)) signature in
      Returns-bind P (raise_if (not valid) invalid_signature) _ (λ _ e₁.
        Returns-bind P (check_issuer grant) _ (λ _ e₂.
          Returns-bind P (check_party q grant) _ (λ _ e₃.
            Returns-bind P (check_time q.now grant) _ (λ _ e₄.
              Returns-bind P (item (text "encryption") grant) _ (λ encryption _.
                Returns-bind P (check_cipher encryption) _ (λ _ _.
                  Returns-bind P (check_ciphertext o.sha256 ciphertext grant) _ (λ _ e₅.
                    Returns-bind P (index (text "nonce") encryption) _ (λ given _.
                      Returns-bind P (as_nonce given) _ (λ nonce _.
                        Returns-bind P (decrypt o q.aes_key nonce ciphertext grant) _ (λ content e₆.
                          Returns-bind P
                            (check_content o.sha256 q.expected_content_id grant content) _
                            (λ _ e₇. record {
                              signed = not-false (raise_if-ok (not valid) invalid_signature (cc));
                              issuer =
                                  Returns-ok (λ _. Issuer grant) _ (check_issuer-Issuer grant) e₂;
                              party =
                                  Returns-ok (λ _. Party q grant) _ (check_party-Party q grant) e₃;
                              current =
                                  Returns-ok (λ _. Current q.now grant) _
                                    (check_time-Current q.now grant) e₄;
                              committed =
                                  Returns-ok
                                    (λ _.
                                      Has grant (text "ciphertext_sha256")
                                        (str (hexdigest (o.sha256 ciphertext))))
                                    _ (check_ciphertext-Has o.sha256 ciphertext grant) e₅;
                              nonce = nonce;
                              opened = e₆;
                              whole =
                                  Returns-ok
                                    (λ _. Whole o.sha256 q.expected_content_id grant content) _
                                    (check_content-Whole o.sha256 q.expected_content_id grant
                                      content)
                                    e₇;
                            })))))))))))

-- Content that `consume` returns is whole: its hash is the expected one and its length that of the
-- grant. The grant is signed under the trusted key, of the known format and publisher, names the
-- principal and the content, has the time of the call within its bounds and commits the ciphertext,
-- which opens to the content with the metadata of the grant as associated data.
pub consume-Accepted :
    (o : Openssl) (q : Request) (grant : Fields) (ciphertext : Bytes) (signature : Value)
    {content : Bytes}
    → consume o q grant ciphertext signature ≡ ok content
    → Accepted o q grant ciphertext signature content
consume-Accepted o q grant ciphertext signature h =
    Returns-ok (Accepted o q grant ciphertext signature) (consume o q grant ciphertext signature)
      (accepted o q grant ciphertext signature) h
