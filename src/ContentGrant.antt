-- ===== src/ContentGrant.antt =====
-- examples/content_grant.py: a signed grant of access to encrypted content, over OpenSSL.
-- `publish` is modelled without a runtime, on the CPU, and SHA-256 of hashlib is OpenSSL's.
pub mod Hex
pub mod Checked
pub mod Consume
pub mod Publish
pub mod Published
pub mod Drafted
pub mod Trip
pub mod Tests
use gpu_batch_crypto.Prelude.{
  ℕ, ◌+◌, Bool, false, not, Option, none, some, List, [], ◌∷◌, ◌++◌, Text, Bytes, text, text_eq,
  Result, ok, err, ◌>>=◌, ◌>>◌, raise_if, leb, ltb, ◌&&◌, ◌==◌, if◌then◌else◌, length,
}
use gpu_batch_crypto.Python.Json.{Json, Fields, null, str, num, arr, obj, field, end}
use gpu_batch_crypto.Python.Values
use gpu_batch_crypto.Python.Values.{Value, bytes}
use gpu_batch_crypto.Core.{Record}
use gpu_batch_crypto.AccessBook.Checks.{canonical, hexdigest}
use gpu_batch_crypto.Backends.Cpu
use gpu_batch_crypto.Backends.Cpu.{Openssl, verify_p256}
use gpu_batch_crypto.ContentGrant.Hex.{fromhex}

-- Every exception: what ValueError was raised for, a missing key, an index out of range, and what
-- the operations that are called raise.
pub data Error : Type 0 where
  invalid_signature unexpected_issuer wrong_principal not_valid unknown_encryption : Error
  ciphertext_mismatch bad_hex not_authentic content_mismatch : Error
  key_error index_error : Error
  raised : Values.Error → Error

-- A grant is a dictionary with distinct keys, of texts, natural numbers and dictionaries.
-- grant[key]
unfoldable pub item : Text → Fields → Result Error Json
item key end = err key_error
item key (field k v rest) = let found = item key rest in if text_eq k key then ok v else found

-- value[key], which only a dictionary has
unfoldable pub index : Text → Json → Result Error Json
unfolding item
index key (obj fs) = item key fs
index key _ = err (raised Values.type_error)

-- value == t
unfoldable pub is_str : Text → Json → Bool
is_str t (str u) = text_eq u t
is_str t _ = false

-- value == n
unfoldable pub is_num : ℕ → Json → Bool
is_num n (num m) = m == n
is_num n _ = false

unfoldable pub domain : Bytes
domain = text "gpu-crypto-content-grant-v1" ++ 0 ∷ []

unfoldable pub grant_digest : (Bytes → Bytes) → Fields → Bytes
grant_digest sha256 grant = sha256 (domain ++ canonical (obj grant))

-- {k: grant[k] for k in keys}
unfoldable pub pick : List Text → Fields → Result Error Fields
pick [] grant = ok end
pick (k ∷ ks) grant = do v ← item k grant; rest ← pick ks grant; ok (field k v rest)

unfoldable pub metadata_keys : List Text
metadata_keys =
    text "version"
    ∷ text "publisher_id"
    ∷ text "content_id"
    ∷ text "content_length"
    ∷ text "content_type"
    ∷ text "key_id"
    ∷ []

unfoldable pub metadata : Fields → Result Error Fields
unfolding pick metadata_keys
metadata = pick metadata_keys

-- What the class `Cpu` raises, passed on.
unfoldable pub lifted : {A : Type 0} → Result Values.Error A → Result Error A
lifted (ok a) = ok a
lifted (err e) = err (raised e)

-- xs[0]
unfoldable pub head : {A : Type 0} → List A → Result Error A
head [] = err index_error
head (x ∷ xs) = ok x

-- operation([x])[0]
unfoldable pub one : {A : Type 0} → Result Values.Error (List A) → Result Error A
unfolding lifted head
one r = lifted r >>= head

-- `type(value) is not int`, with the number
unfoldable pub as_int : Error → Json → Result Error ℕ
as_int e (num n) = ok n
as_int e _ = err e

-- bytes.fromhex(value)
unfoldable pub as_nonce : Json → Result Error Bytes
as_nonce (str t) = elim (fromhex t) [ none ↦ err bad_hex | some b ↦ ok b ]
as_nonce _ = err (raised Values.type_error)

unfoldable pub authentic : Option Bytes → Result Error Bytes
authentic none = err not_authentic
authentic (some content) = ok content

-- What `consume` is given from outside the grant.
pub record Request : Type 0 where
  pub aes_key : Value
  pub trusted_public : Value
  pub expected_content_id : Text
  pub now : ℕ
  pub principal : Text

unfoldable pub check_issuer : Fields → Result Error (Unit {0})
check_issuer grant = do
  version ← item (text "version") grant
  raise_if (not (is_num 1 version)) unexpected_issuer
  publisher ← item (text "publisher_id") grant
  raise_if (not (is_str (text "publisher.example") publisher)) unexpected_issuer
  key ← item (text "key_id") grant
  raise_if (not (is_str (text "publisher-signing-1") key)) unexpected_issuer

unfoldable pub check_party : Request → Fields → Result Error (Unit {0})
check_party q grant = do
  principal ← item (text "principal") grant
  raise_if (not (is_str q.principal principal)) wrong_principal
  content ← item (text "content_id") grant
  raise_if (not (is_str q.expected_content_id content)) wrong_principal

unfoldable pub check_time : ℕ → Fields → Result Error (Unit {0})
unfolding as_int
check_time now grant = do
  issued ← item (text "issued_at") grant
  i ← as_int not_valid issued
  expires ← item (text "expires_at") grant
  e ← as_int not_valid expires
  raise_if (not (leb i now && ltb now e)) not_valid

unfoldable pub check_cipher : Json → Result Error (Unit {0})
check_cipher encryption = do
  algorithm ← index (text "algorithm") encryption
  raise_if (not (is_str (text "AES-256-GCM") algorithm)) unknown_encryption
  key ← index (text "content_key_id") encryption
  raise_if (not (is_str (text "content-key-1") key)) unknown_encryption

unfoldable pub check_ciphertext : (Bytes → Bytes) → Bytes → Fields → Result Error (Unit {0})
check_ciphertext sha256 ciphertext grant = do
  given ← item (text "ciphertext_sha256") grant
  raise_if (not (is_str (hexdigest (sha256 ciphertext)) given)) ciphertext_mismatch

unfoldable pub check_content : (Bytes → Bytes) → Text → Fields → Bytes → Result Error (Unit {0})
check_content sha256 expected grant content = do
  given ← item (text "content_length") grant
  n ← as_int content_mismatch given
  raise_if (not (length content == n && text_eq (hexdigest (sha256 content)) expected))
      content_mismatch

module _ (o : Openssl) where
  unfoldable pub decrypt : Value → Bytes → Bytes → Fields → Result Error Bytes
  unfolding metadata authentic one
  decrypt key nonce ciphertext grant = do
    meta ← metadata grant
    let r : Record = record {
      nonce = bytes nonce;
      payload = bytes ciphertext;
      aad = bytes (canonical (obj meta));
    }
    opened ← one (Cpu.open_records o key (r ∷ []))
    authentic opened

  unfoldable pub consume : Request → Fields → Bytes → Value → Result Error Bytes
  unfolding check_issuer check_party check_time check_cipher check_ciphertext check_content as_nonce
  consume q grant ciphertext signature = do
    raise_if (not (verify_p256 o q.trusted_public (bytes (grant_digest o.sha256 grant)) signature))
        invalid_signature
    check_issuer grant
    check_party q grant
    check_time q.now grant
    encryption ← item (text "encryption") grant
    check_cipher encryption
    check_ciphertext o.sha256 ciphertext grant
    given ← index (text "nonce") encryption
    nonce ← as_nonce given
    content ← decrypt q.aes_key nonce ciphertext grant
    check_content o.sha256 q.expected_content_id grant content
    ok content
