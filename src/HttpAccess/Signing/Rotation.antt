-- ===== src/HttpAccess/Signing/Rotation.antt =====
-- What `Keys.rotate` of examples/http_access/signing.py does to the pins.
use gpu_batch_crypto.Prelude.{
  ℕ, ◌≡◌, refl, inl, inr, false, Option, some, List, [], ◌∷◌, Text, Bytes, text_eq, text_eq_refl,
  text_eq_sound, Result, ok, err, arith, Bool-cases,
}
use gpu_batch_crypto.Python.Values.{Error}
use gpu_batch_crypto.HttpAccess.Signing.Issuer.{
  Keys, pinned, pin, kid_of, next_epoch, rotated, rotate,
}

pub pinned-pin :
    (kid : Text) (public : Bytes) (pins : List (Text × Bytes))
    → pinned kid (pin kid public pins) ≡ some public
unfolding pinned pin
pinned-pin kid public [] = ground (arith, text_eq_refl kid)
pinned-pin kid public ((k, p) ∷ rest) = elim (Bool-cases (text_eq k kid)) [
  | inl t ↦ ground (arith, t, text_eq_refl kid)
  | inr t ↦ ground (arith, t, pinned-pin kid public rest)
]

pub pinned-pin_other :
    (kid : Text) (public : Bytes) (other : Text) (pins : List (Text × Bytes))
    → text_eq kid other ≡ false
    → pinned other (pin kid public pins) ≡ pinned other pins
unfolding pinned pin
pinned-pin_other kid public other [] h = ground (arith, h)
pinned-pin_other kid public other ((k, p) ∷ rest) h = elim (Bool-cases (text_eq k kid)) [
  | inl t ↦
      let e : text_eq k other ≡ false = (rw (text_eq_sound k kid t) h) in ground (arith, t, h, e)
  | inr t ↦ ground (arith, t, h, pinned-pin_other kid public other rest h)
]

-- A rotation to a key with that public key.
pub record Rotated (public : Bytes) (k k' : Keys) (kid : Text) : Type 0 where
  pub current : k'.kid ≡ kid
  pub named : kid ≡ kid_of k'.epoch
  pub now_pinned : pinned kid k'.pins ≡ some public
  pub retained :
      (other : Text) → text_eq kid other ≡ false → pinned other k'.pins ≡ pinned other k.pins

rotated-Rotated :
    (public : Bytes) (next : Result Error ℕ) (k : Keys) {kid : Text}
    → (rotated public next k).0 ≡ ok kid
    → Rotated public k (rotated public next k).1 kid
unfolding rotated
rotated-Rotated public (err e) k h = absurd (ground (arith, h))
rotated-Rotated public (ok n) k {kid} h =
    let same : kid_of n ≡ kid = ground (arith, h) in
    rw (← same) (record {
      current = refl;
      named = refl;
      now_pinned = pinned-pin (kid_of n) public k.pins;
      retained = λ other e. pinned-pin_other (kid_of n) public other k.pins e;
    })

-- A rotation that returns makes the new key id the current one, named after the current epoch,
-- and pins it to the new public key; the pin of every other key id is as before.
pub rotate-Rotated :
    (public : Bytes) (loaded : Option (Result Error ℕ)) (k : Keys) {kid : Text}
    → (rotate public loaded k).0 ≡ ok kid
    → Rotated public k (rotate public loaded k).1 kid
unfolding rotate
rotate-Rotated public loaded k h = rotated-Rotated public (next_epoch loaded k) k h
