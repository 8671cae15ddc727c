-- ===== src/Python/Base64.antt =====
-- base64.urlsafe_b64encode and base64.b64decode with altchars=b"-_" and validate=True.
use gpu_batch_crypto.Prelude.{
  ℕ, ◌+◌, ◌-◌, ◌*◌, ◌/◌, ◌%◌, Bool, true, false, ◌||◌, ◌&&◌, Option, none, some, [], ◌∷◌, ◌++◌,
  Bytes, Text, ltb, leb, ◌==◌, if◌then◌else◌,
}

-- The URL-safe alphabet.
unfoldable pub symbol : ℕ → ℕ
symbol n =
    if ltb n 26
    then 65 + n
    else if ltb n 52
    then 71 + n
    else if ltb n 62
    then n - 4
    else if n == 62
    then b'-'
    else b'_'

unfoldable pub urlsafe_b64encode : Bytes → Text
urlsafe_b64encode [] = []
urlsafe_b64encode (a ∷ []) = symbol (a / 4) ∷ symbol (a % 4 * 16) ∷ b'=' ∷ b'=' ∷ []
urlsafe_b64encode (a ∷ b ∷ []) =
    symbol (a / 4) ∷ symbol (a % 4 * 16 + b / 16) ∷ symbol (b % 16 * 4) ∷ b'=' ∷ []
urlsafe_b64encode (a ∷ b ∷ c ∷ rest) =
    symbol (a / 4)
    ∷ symbol (a % 4 * 16 + b / 16)
    ∷ symbol (b % 16 * 4 + c / 64)
    ∷ symbol (c % 64)
    ∷ urlsafe_b64encode rest

-- t.rstrip(b"=")
unfoldable pub rstrip_equals : Text → Text
rstrip_equals [] = []
rstrip_equals (c ∷ t) =
    let rest = rstrip_equals t in
    elim rest [ [] ↦ (if c == b'=' then [] else c ∷ []) | x ∷ xs ↦ c ∷ x ∷ xs ]

-- The value of a symbol. The decoder takes both alphabets.
unfoldable pub symbol_value : ℕ → Option ℕ
symbol_value c =
    if leb b'A' c && leb c b'Z'
    then some (c - 65)
    else if leb b'a' c && leb c b'z'
    then some (c - 71)
    else if leb b'0' c && leb c b'9'
    then some (c + 4)
    else if c == b'-' || c == b'+'
    then some 62
    else if c == b'_' || c == b'/'
    then some 63
    else none

-- The last group of four, with one or two `=`; any group, with none.
unfoldable pub decode_group : ℕ → ℕ → ℕ → ℕ → Bool → Option Bytes
decode_group a b c d last = elim (symbol_value a) [
  | none ↦ none
  | some x ↦ elim (symbol_value b) [
    | none ↦ none
    | some y ↦ elim (symbol_value c) [
      | none ↦ if last && c == b'=' && d == b'=' then some ((x * 4 + y / 16) ∷ []) else none
      | some z ↦ elim (symbol_value d) [
        | none ↦
            if last && d == b'=' then some ((x * 4 + y / 16) ∷ (y % 16 * 16 + z / 4) ∷ []) else none
        | some w ↦ some ((x * 4 + y / 16) ∷ (y % 16 * 16 + z / 4) ∷ (z % 4 * 64 + w) ∷ [])
      ]
    ]
  ]
]

is_empty : Text → Bool
is_empty [] = true
is_empty (c ∷ t) = false

join : Option Bytes → Option Bytes → Option Bytes
join (some xs) (some ys) = some (xs ++ ys)
join (some xs) none = none
join none ys = none

unfoldable pub b64decode : Text → Option Bytes
unfolding is_empty join
b64decode [] = some []
b64decode (a ∷ []) = none
b64decode (a ∷ b ∷ []) = none
b64decode (a ∷ b ∷ c ∷ []) = none
b64decode (a ∷ b ∷ c ∷ d ∷ rest) = join (decode_group a b c d (is_empty rest)) (b64decode rest)
