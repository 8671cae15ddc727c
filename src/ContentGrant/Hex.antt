-- ===== src/ContentGrant/Hex.antt =====
-- `bytes.fromhex` of Python, which examples/content_grant.py reads a nonce with.
use gpu_batch_crypto.Prelude.{
  ◌≡◌, ◌<◌, ◌++◌, refl, All, ℕ, ◌+◌, ◌*◌, ◌-◌, Bool, ◌||◌, Option, none, some, List, [], ◌∷◌, Text,
  Bytes, ◌==◌, if◌then◌else◌, arith,
}
use gpu_batch_crypto.AccessBook.Checks.{is_between, hexdigest}

unfoldable pub digit : ℕ → Option ℕ
digit c =
    if is_between b'0' b'9' c
    then some (c - b'0')
    else if is_between b'a' b'f' c
    then some (c - 87)
    else if is_between b'A' b'F' c
    then some (c - 55)
    else none

-- ASCII white space
unfoldable pub is_space : ℕ → Bool
is_space c = c == 32 || is_between 9 13 c

unfoldable pub pair : Option ℕ → Option ℕ → Option Bytes → Option Bytes
pair (some h) (some l) (some rest) = some ((h * 16 + l) ∷ rest)
pair h l rest = none

-- Two digits to a byte; white space may stand before a byte and at the end.
unfoldable pub fromhex : Text → Option Bytes
unfolding digit is_space pair
fromhex [] = some []
fromhex (c ∷ []) = if is_space c then some [] else none
fromhex (c ∷ d ∷ t) =
    let rest = fromhex t in
    let after = fromhex (d ∷ t) in if is_space c then after else pair (digit c) (digit d) rest

pair-digits :
    (b : ℕ) (rest : Bytes) (t : List ℕ)
    → b < 256
    → fromhex t ≡ some rest
    → fromhex (hexdigest (b ∷ []) ++ t) ≡ some (b ∷ rest)
unfolding fromhex hexdigest digit is_space pair
pair-digits b rest t h e = ground (arith, h, e)

pub fromhex-hexdigest : (bs : Bytes) → All (λ b. b < 256) bs → fromhex (hexdigest bs) ≡ some bs
unfolding fromhex hexdigest
fromhex-hexdigest [] h = refl
fromhex-hexdigest (b ∷ bs) (h, hs) = pair-digits b bs (hexdigest bs) h (fromhex-hexdigest bs hs)
