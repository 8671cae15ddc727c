-- ===== src/Manifests/Tests.antt =====
-- A manifest of two records.
use gpu_batch_crypto.Prelude.{
  ◌≡◌, refl, ◌⊎◌, true, false, List, [], ◌∷◌, ◌++◌, map, Bytes, Text, text, Result, ok, err,
  text_eq,
}
use gpu_batch_crypto.Python.Ints.{int_to_bytes, int_from_bytes, to_decimal}
use gpu_batch_crypto.Python.Base64.{symbol, urlsafe_b64encode, rstrip_equals}
use gpu_batch_crypto.Python.Json.{dumps, sort_keys, text_le, texts}
use gpu_batch_crypto.Python.Values.{Value, bytes, str, Error, is_ascii, is_printable}
use gpu_batch_crypto.Core.{as_bytes, check_batch, check_messages}
use gpu_batch_crypto.Jws.{
  b64, is_label, check_label, scalar_r, scalar_s, is_low_s, check_signature, header, signing_input,
  join_tokens, sign_es256,
}
use gpu_batch_crypto.Manifests.Signing.{Committed, seal_manifest-Committed}
use gpu_batch_crypto.Receipts.Sound.{Collision}
use gpu_batch_crypto.Manifests.{
  VerifiedManifest, matches, verify_record, verify_from, verify_checked, verify_all, seal_manifest,
}
use gpu_batch_crypto.Manifests.Export.{verify_all_sound, verify_all_complete}

abbrev same : Bytes → Bytes
same b = b

abbrev records : List Bytes
records = (1 ∷ 2 ∷ []) ∷ (3 ∷ []) ∷ []

abbrev items : List Value
items = map bytes records

abbrev handle : VerifiedManifest
handle = record { context = []; key_id = []; digests = map same records }

checked : check_messages items ≡ ok records
unfolding check_messages check_batch as_bytes
checked = refl

accepted : verify_all same handle items ≡ true
unfolding verify_all verify_checked verify_from verify_record matches check_messages check_batch
    as_bytes text_eq
accepted = refl

test_swapped : verify_all same handle (bytes (3 ∷ []) ∷ bytes (1 ∷ 2 ∷ []) ∷ []) ≡ false
unfolding verify_all verify_checked verify_from verify_record matches check_messages check_batch
    as_bytes text_eq
test_swapped = refl

verify_all_sound_example : (items ≡ items) ⊎ Collision same
verify_all_sound_example = verify_all_sound same handle records items refl accepted

verify_all_complete_example : verify_all same handle items ≡ true
verify_all_complete_example = verify_all_complete same handle records items refl checked

abbrev label : Value
label = str (107 ∷ [])

-- Every signature has both scalars 1.
abbrev ones : List Bytes → Result Error (List Value)
ones digests = ok (map (λ (d : Bytes). bytes (int_to_bytes 32 1 ++ int_to_bytes 32 1)) digests)

abbrev text_of : Result Error Text → Text
text_of (ok t) = t
text_of (err e) = []

abbrev manifest : Text
manifest = text_of (seal_manifest same items label label ones)

sealed : seal_manifest same items label label ones ≡ ok manifest
unfolding seal_manifest sign_es256 check_label is_label is_ascii is_printable check_messages
    check_batch check_signature as_bytes is_low_s scalar_r scalar_s int_from_bytes int_to_bytes
    header signing_input join_tokens b64 urlsafe_b64encode symbol rstrip_equals dumps sort_keys text
    to_decimal text_le texts
sealed = refl

seal_manifest-Committed_example : Committed same items label label ones manifest
seal_manifest-Committed_example = seal_manifest-Committed same items label label ones sealed
