-- ===== src/Python/Json.antt =====
-- json.dumps(value, separators=(",", ":")), with and without sort_keys=True, on the values that the
-- program encodes: null, text, natural numbers, lists and objects.
use gpu_batch_crypto.Prelude.{
  ℕ, ◌+◌, ◌-◌, ◌/◌, ◌%◌, ◌≡◌, refl, Bool, true, false, ◌||◌, List, [], ◌∷◌, ◌++◌, Text, text, ltb,
  ◌==◌, if◌then◌else◌,
}
use gpu_batch_crypto.Python.Ints.{to_decimal}

mutual
  pub data Json : Type 0 where
    null : Json
    str : Text → Json
    num : ℕ → Json
    arr : Items → Json
    obj : Fields → Json

  pub data Items : Type 0 where
    nil : Items
    cons : Json → Items → Items

  pub data Fields : Type 0 where
    end : Fields
    field : Text → Json → Fields → Fields

hex_digit : ℕ → ℕ
hex_digit n = if ltb n 10 then 48 + n else 87 + n

-- \uXXXX
escape_unit : ℕ → Text
escape_unit u =
    b'\\'
    ∷ b'u'
    ∷ hex_digit (u / 4096 % 16)
    ∷ hex_digit (u / 256 % 16)
    ∷ hex_digit (u / 16 % 16)
    ∷ hex_digit (u % 16)
    ∷ []

-- One character under ensure_ascii, which is the default; beyond 0xffff a surrogate pair.
escape : ℕ → Text
unfolding hex_digit escape_unit
escape c =
    if c == 34
    then b'\\' ∷ 34 ∷ []
    else if c == 92
    then b'\\' ∷ b'\\' ∷ []
    else if c == 10
    then b'\\' ∷ b'n' ∷ []
    else if c == 13
    then b'\\' ∷ b'r' ∷ []
    else if c == 9
    then b'\\' ∷ b't' ∷ []
    else if c == 8
    then b'\\' ∷ b'b' ∷ []
    else if c == 12
    then b'\\' ∷ b'f' ∷ []
    else if ltb c 32 || ltb 126 c
    then (if ltb c 0x10000
        then escape_unit c
        else escape_unit (0xd800 + (c - 0x10000) / 1024)
          ++ escape_unit (0xdc00 + (c - 0x10000) % 1024))
    else c ∷ []

escape_all : Text → Text
unfolding escape
escape_all [] = []
escape_all (c ∷ t) = escape c ++ escape_all t

quoted : Text → Text
unfolding escape_all
quoted t = 34 ∷ escape_all t ++ 34 ∷ []

unfoldable mutual
  unfolding quoted

  pub dumps : Json → Text
  dumps null = b'n' ∷ b'u' ∷ b'l' ∷ b'l' ∷ []
  dumps (str t) = quoted t
  dumps (num n) = to_decimal n
  dumps (arr nil) = b'[' ∷ b']' ∷ []
  dumps (arr (cons x xs)) = b'[' ∷ dumps x ++ dumps_items xs
  dumps (obj end) = b'{' ∷ b'}' ∷ []
  dumps (obj (field k v fs)) = b'{' ∷ quoted k ++ b':' ∷ dumps v ++ dumps_fields fs

  pub dumps_items : Items → Text
  dumps_items nil = b']' ∷ []
  dumps_items (cons x xs) = b',' ∷ dumps x ++ dumps_items xs

  pub dumps_fields : Fields → Text
  dumps_fields end = b'}' ∷ []
  dumps_fields (field k v fs) = b',' ∷ quoted k ++ b':' ∷ dumps v ++ dumps_fields fs

-- Python compares text by code points.
unfoldable pub text_le : Text → Text → Bool
text_le [] t = true
text_le (c ∷ s) [] = false
text_le (c ∷ s) (d ∷ t) =
    let rest = text_le s t in if ltb c d then true else if c == d then rest else false

insert_field : Text → Json → Fields → Fields
insert_field k v end = field k v end
insert_field k v (field j w fs) =
    let rest = field j w (insert_field k v fs) in
    if text_le k j then field k v (field j w fs) else rest

-- sort_keys=True, which goes down into every object.
unfoldable mutual
  unfolding insert_field

  pub sort_keys : Json → Json
  sort_keys null = null
  sort_keys (str t) = str t
  sort_keys (num n) = num n
  sort_keys (arr xs) = arr (sort_keys_items xs)
  sort_keys (obj fs) = obj (sort_keys_fields fs)

  pub sort_keys_items : Items → Items
  sort_keys_items nil = nil
  sort_keys_items (cons x xs) = cons (sort_keys x) (sort_keys_items xs)

  pub sort_keys_fields : Fields → Fields
  sort_keys_fields end = end
  sort_keys_fields (field k v fs) = insert_field k (sort_keys v) (sort_keys_fields fs)

-- A list of texts as a JSON list.
unfoldable pub texts : List Text → Items
texts [] = nil
texts (t ∷ ts) = cons (str t) (texts ts)

test_dumps :
    dumps (
      sort_keys (
        obj (
          field
            (text "b")
            (num 120)
            (field (text "a") (arr (cons (str (text "x\"y")) (cons (num 0) nil))) end))))
    ≡ text "{\"a\":[\"x\\\"y\",0],\"b\":120}"
unfolding dumps sort_keys text to_decimal text_le
test_dumps = refl
