-- ===== src/Receipts/Tests.antt =====
-- Inclusion trees at concrete records.
use gpu_batch_crypto.Prelude.{
  ℕ, zero, suc, ◌+◌, ◌*◌, ◌%◌, ◌≡◌, refl, ◌⊎◌, true, false, Option, none, some, List, [], ◌∷◌, ◌++◌,
  map, Bytes, text, text_eq, Result, ok, err, arith, length, get_elem?,
}
use gpu_batch_crypto.Receipts.Tree.{
  Paths, append_range, leaf_hash, node_hash, build, tree, strip, step, climb, is_root, included,
}
use gpu_batch_crypto.Receipts.Included.{Proven, tree-Proven}
use gpu_batch_crypto.Receipts.Sound.{Collision, included_sound}
use gpu_batch_crypto.Python.Ints.{int_to_bytes, int_from_bytes, to_decimal}
use gpu_batch_crypto.Python.Base64.{symbol, urlsafe_b64encode, rstrip_equals}
use gpu_batch_crypto.Python.Json.{dumps, sort_keys, text_le}
use gpu_batch_crypto.Python.Values.{Value, bytes, str, Error, is_ascii, is_printable}
use gpu_batch_crypto.Core.{as_bytes, check_batch, check_messages}
use gpu_batch_crypto.Jws.{
  b64, is_label, check_label, scalar_r, scalar_s, is_low_s, check_signature, header, signing_input,
  join_tokens, sign_es256,
}
use gpu_batch_crypto.Receipts.Seal.{SealedBatch, seal_records}
use gpu_batch_crypto.Receipts.Sealed.{
  Sealed, Receipted, seal_records-Sealed, seal_records-Receipted,
}

abbrev repeat : ℕ → ℕ → Bytes
repeat zero b = []
repeat (suc n) b = b ∷ repeat n b

abbrev checksum : ℕ → Bytes → ℕ
checksum acc [] = acc
checksum acc (b ∷ bs) = checksum ((acc * 31 + b + 7) % 251) bs

-- 32 times a checksum of the text.
abbrev toy_sha256 : Bytes → Bytes
toy_sha256 b = repeat 32 (checksum 0 b)

length-repeat : (n b : ℕ) → length (repeat n b) ≡ n
length-repeat zero b = refl
length-repeat (suc n) b = omega (arith, length-repeat n b)

length-toy_sha256 : (b : Bytes) → length (toy_sha256 b) ≡ 32
length-toy_sha256 b = length-repeat 32 (checksum 0 b)

abbrev records : List Bytes
records = (10 ∷ []) ∷ (11 ∷ []) ∷ (12 ∷ []) ∷ (13 ∷ []) ∷ (14 ∷ []) ∷ []

abbrev made : Option (Bytes × Paths) → Bytes × Paths
made none = ([], [])
made (some x) = x

abbrev root : Bytes
root = (made (tree toy_sha256 records)).0

abbrev paths : Paths
paths = (made (tree toy_sha256 records)).1

tree_made : tree toy_sha256 records ≡ some (root, paths)
unfolding tree build leaf_hash node_hash append_range
tree_made = refl

abbrev path_at : Option (List Bytes) → List Bytes
path_at none = []
path_at (some p) = p

accepted : included toy_sha256 (13 ∷ []) 3 5 (path_at (get_elem? paths 3)) root ≡ true
unfolding tree build leaf_hash node_hash append_range included climb step strip is_root text_eq
accepted = refl

test_other_index : included toy_sha256 (13 ∷ []) 2 5 (path_at (get_elem? paths 3)) root ≡ false
unfolding tree build leaf_hash node_hash append_range included climb step strip is_root text_eq
test_other_index = refl

test_last : included toy_sha256 (14 ∷ []) 4 5 (path_at (get_elem? paths 4)) root ≡ true
unfolding tree build leaf_hash node_hash append_range included climb step strip is_root text_eq
test_last = refl

abbrev fourth : Bytes
fourth = 13 ∷ []

tree-Proven_example :
    (root : Bytes) × (paths : Paths) × (tree toy_sha256 records ≡ some (root, paths))
    × Proven toy_sha256 records root paths 3 fourth
tree-Proven_example = tree-Proven toy_sha256 records 3 fourth refl

included_sound_example : (fourth ≡ fourth) ⊎ Collision toy_sha256
included_sound_example =
    included_sound toy_sha256 length-toy_sha256 records root paths tree_made 3 fourth fourth
      (path_at (get_elem? paths 3)) refl accepted

abbrev items : List Value
items = map bytes records

abbrev label : Value
label = str (107 ∷ [])

-- Every signature has both scalars 1.
abbrev ones : List Bytes → Result Error (List Value)
ones digests = ok (map (λ (d : Bytes). bytes (int_to_bytes 32 1 ++ int_to_bytes 32 1)) digests)

abbrev batch_of : Result Error SealedBatch → SealedBatch
batch_of (ok b) = b
batch_of (err e) = record { manifest = []; paths = [] }

abbrev batch : SealedBatch
batch = batch_of (seal_records toy_sha256 items label label ones)

sealed : seal_records toy_sha256 items label label ones ≡ ok batch
unfolding seal_records sign_es256 check_label is_label is_ascii is_printable check_messages
    check_batch check_signature as_bytes is_low_s scalar_r scalar_s int_from_bytes int_to_bytes
    header signing_input join_tokens b64 urlsafe_b64encode symbol rstrip_equals dumps sort_keys text
    to_decimal text_le tree build leaf_hash node_hash append_range
sealed = refl

seal_records-Sealed_example : Sealed toy_sha256 items label label ones batch
seal_records-Sealed_example = seal_records-Sealed toy_sha256 items label label ones sealed

checked : check_messages items ≡ ok records
unfolding check_messages check_batch as_bytes
checked = refl

seal_records-Receipted_example : Receipted toy_sha256 records batch 3 fourth true
seal_records-Receipted_example =
    seal_records-Receipted toy_sha256 items label label ones records 3 fourth true sealed checked
      refl
