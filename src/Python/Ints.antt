-- ===== src/Python/Ints.antt =====
-- int.from_bytes(b, "big"), int.to_bytes(n, "big"), str(n).
use gpu_batch_crypto.Prelude.{
  ℕ, zero, suc, ◌+◌, ◌*◌, ◌/◌, ◌%◌, ◌<◌, ◌≡◌, refl, [], ◌∷◌, ◌++◌, Bytes, Text, All, arith, ltb,
  if◌then◌else◌, length, length-append,
}

from_bytes_onto : ℕ → Bytes → ℕ
from_bytes_onto acc [] = acc
from_bytes_onto acc (b ∷ bs) = from_bytes_onto (acc * 256 + b) bs

-- int.from_bytes(b, "big")
unfoldable pub int_from_bytes : Bytes → ℕ
unfolding from_bytes_onto
int_from_bytes bs = from_bytes_onto 0 bs

-- n.to_bytes(size, "big"), for an n that fits.
unfoldable pub int_to_bytes : ℕ → ℕ → Bytes
int_to_bytes zero n = []
int_to_bytes (suc size) n = int_to_bytes size (n / 256) ++ (n % 256) ∷ []

-- A value of the type `bytes` has entries below 256.
abbrev pub IsBytes : Bytes → Type 0
IsBytes = All (λ b. b < 256)

pub length-int_to_bytes : (size n : ℕ) → length (int_to_bytes size n) ≡ size
unfolding int_to_bytes
length-int_to_bytes zero n = refl
length-int_to_bytes (suc size) n = omega (
  arith,
  length-append (int_to_bytes size (n / 256)) ((n % 256) ∷ []),
  length-int_to_bytes size (n / 256),
)

from_bytes_onto-append :
    (acc : ℕ) (xs : Bytes) (b : ℕ)
    → from_bytes_onto acc (xs ++ b ∷ []) ≡ from_bytes_onto acc xs * 256 + b
unfolding from_bytes_onto
from_bytes_onto-append acc [] b = refl
from_bytes_onto-append acc (x ∷ xs) b = from_bytes_onto-append (acc * 256 + x) xs b

-- How many numbers have that many bytes.
unfoldable pub capacity : ℕ → ℕ
capacity zero = 1
capacity (suc size) = capacity size * 256

pub int_from_bytes-int_to_bytes :
    (size n : ℕ) → n < capacity size → int_from_bytes (int_to_bytes size n) ≡ n
unfolding int_from_bytes int_to_bytes from_bytes_onto capacity
int_from_bytes-int_to_bytes zero n h = omega arith
int_from_bytes-int_to_bytes (suc size) n h = omega (
  arith,
  from_bytes_onto-append 0 (int_to_bytes size (n / 256)) (n % 256),
  int_from_bytes-int_to_bytes size (n / 256) (omega (arith, h)),
)

-- The decimal digits of a number, the fuel being at least the number of digits.
decimal : ℕ → ℕ → Text
decimal zero n = []
decimal (suc fuel) n =
    let rest = decimal fuel (n / 10) in
    if ltb n 10 then (48 + n) ∷ [] else rest ++ (48 + n % 10) ∷ []

-- str(n)
unfoldable pub to_decimal : ℕ → Text
unfolding decimal
to_decimal n = decimal (n + 1) n
