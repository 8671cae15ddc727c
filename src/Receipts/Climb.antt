-- ===== src/Receipts/Climb.antt =====
-- The loop of `_included`: what more siblings, a longer tree and a shifted position do to it.
use gpu_batch_crypto.Prelude.{
  ℕ, zero, suc, ◌+◌, ◌-◌, ◌*◌, ◌/◌, ◌%◌, ◌≤◌, ◌<◌, ◌≡◌, refl, sym, ap, ◌∙◌, inl, inr, Bool, true,
  false, ◌||◌, Option, some, List, [], ◌∷◌, ◌++◌, Bytes, arith, ◌==◌, if◌then◌else◌, Bool-cases,
}
use gpu_batch_crypto.Receipts.Tree.{shift_left, is_odd, strip, step, climb, node_hash}

abbrev pub pow2 : ℕ → ℕ
pow2 e = shift_left 1 e

pub pow2-positive : (e : ℕ) → 1 ≤ pow2 e
pow2-positive zero = omega arith
pow2-positive (suc e) = omega (arith, pow2-positive e)

pub lt-pow2 : (e : ℕ) → e < pow2 e
lt-pow2 zero = omega arith
lt-pow2 (suc e) = omega (arith, lt-pow2 e)

-- Shifting a power of two down to one.
pub strip-pow2 : (e f : ℕ) → e ≤ f → strip f (pow2 e) (pow2 e) ≡ (1, 1)
unfolding strip
strip-pow2 zero zero h = refl
strip-pow2 zero (suc f) h = refl
strip-pow2 (suc e) zero h = absurd (omega (arith, h))
strip-pow2 (suc e) (suc f) h =
    let half : (2 * pow2 e) / 2 ≡ pow2 e = omega arith in
    let even : (2 * pow2 e) % 2 ≡ 0 = omega arith in
    ground (arith, half, even, pow2-positive e, strip-pow2 e f (omega (arith, h)))

strip-odd : (f fn sn : ℕ) → is_odd fn ≡ true → strip f fn sn ≡ (fn, sn)
unfolding strip
strip-odd zero fn sn h = refl
strip-odd (suc f) fn sn h = ground (arith, h)

strip-even :
    (f fn sn : ℕ) → 1 ≤ fn → is_odd fn ≡ false → strip (suc f) fn sn ≡ strip f (fn / 2) (sn / 2)
unfolding strip
strip-even f fn sn p h = ground (arith, p, h)

-- A pair below a power of two, and the pair with that power added to both.
pub record Lifted (low high : ℕ × ℕ) : Type 0 where
  pub exponent : ℕ
  pub below : low.0 < pow2 exponent
  pub below_last : low.1 < pow2 exponent
  pub position : high.0 ≡ low.0 + pow2 exponent
  pub last : high.1 ≡ low.1 + pow2 exponent

-- With a power of two above both positions the same shifts are made.
strip-high :
    (e f g fn sn : ℕ)
    → 1 ≤ fn
    → fn < pow2 e
    → sn < pow2 e
    → fn ≤ f
    → fn + pow2 e ≤ g
    → Lifted (strip f fn sn) (strip g (fn + pow2 e) (sn + pow2 e))
strip-high e zero g fn sn p l m h k = absurd (omega (arith, p, h))
strip-high e (suc f) zero fn sn p l m h k = absurd (omega (arith, p, k))
strip-high zero (suc f) (suc g) fn sn p l m h k = absurd (omega (arith, p, l))
strip-high (suc e) (suc f) (suc g) fn sn p l m h k = elim (Bool-cases (is_odd fn)) [
  | inl odd ↦
      rw
        (
          strip-odd (suc f) fn sn odd,
          strip-odd (suc g) (fn + pow2 (suc e)) (sn + pow2 (suc e)) (ground (arith, odd)),
        )
        (record { exponent = suc e; below = l; below_last = m; position = refl; last = refl })
  | inr even ↦
      let half : (fn + pow2 (suc e)) / 2 ≡ fn / 2 + pow2 e = omega arith in
      let half' : (sn + pow2 (suc e)) / 2 ≡ sn / 2 + pow2 e = omega arith in
      let next =
        strip-even g (fn + pow2 (suc e)) (sn + pow2 (suc e)) (omega (arith, p))
          (ground (arith, even)) in
      let next' : strip (suc g) (fn + pow2 (suc e)) (sn + pow2 (suc e))
          ≡ strip g (fn / 2 + pow2 e) (sn / 2 + pow2 e) =
        cc (next, half, half') in
      rw (strip-even f fn sn p even, next')
        (strip-high e f g (fn / 2) (sn / 2) (ground (arith, p, even)) (omega (arith, l))
          (omega (arith, m)) (ground (arith, p, h)) (omega (arith, k, p)))
]

-- The shifts end at an odd position, and keep the order.
strip-is_odd : (f fn sn : ℕ) → 1 ≤ fn → fn ≤ f → is_odd (strip f fn sn).0 ≡ true
strip-is_odd zero fn sn p h = absurd (omega (arith, p, h))
strip-is_odd (suc f) fn sn p h = elim (Bool-cases (is_odd fn)) [
  | inl odd ↦ rw (strip-odd (suc f) fn sn odd) odd
  | inr even ↦
      rw (strip-even f fn sn p even)
        (strip-is_odd f (fn / 2) (sn / 2) (ground (arith, p, even)) (ground (arith, p, h)))
]

strip-le : (f fn sn : ℕ) → fn ≤ sn → (strip f fn sn).0 ≤ (strip f fn sn).1
unfolding strip
strip-le zero fn sn h = h
strip-le (suc f) fn sn h = elim (Bool-cases (fn == 0 || is_odd fn)) [
  | inl stop ↦ rw stop h
  | inr more ↦ rw more (strip-le f (fn / 2) (sn / 2) (omega (arith, h)))
]

module _ (sha256 : Bytes → Bytes) where
  abbrev pub turns : ℕ → ℕ → Bool
  turns fn sn = is_odd fn || fn == sn

  pub step-left :
      (fn sn : ℕ) (value sibling : Bytes)
      → turns fn sn ≡ true
      → step sha256 fn sn value sibling
        ≡ ((strip fn fn sn).0 / 2, (strip fn fn sn).1 / 2, node_hash sha256 sibling value)
  unfolding step
  step-left fn sn value sibling h = rw h refl

  pub step-right :
      (fn sn : ℕ) (value sibling : Bytes)
      → turns fn sn ≡ false
      → step sha256 fn sn value sibling ≡ (fn / 2, sn / 2, node_hash sha256 value sibling)
  unfolding step
  step-right fn sn value sibling h = rw h refl

  -- The same step with a power of two above: to the same value, with a power of two above.
  record StepHigh (low high : ℕ × ℕ × Bytes) : Type 0 where
    pub exponent : ℕ
    pub below : low.1 < pow2 exponent
    pub ordered : low.0 ≤ low.1
    pub position : high ≡ (low.0 + pow2 exponent, low.1 + pow2 exponent, low.2)

  halved :
      (e fn sn fn' sn' : ℕ) (value : Bytes)
      → is_odd fn ≡ true
      → fn ≤ sn
      → fn < pow2 e
      → sn < pow2 e
      → fn' ≡ fn + pow2 e
      → sn' ≡ sn + pow2 e
      → StepHigh (fn / 2, sn / 2, value) (fn' / 2, sn' / 2, value)
  halved zero fn sn fn' sn' value odd le b l p q = absurd (ground (arith, odd, b))
  halved (suc e) fn sn fn' sn' value odd le b l p q =
      let half : fn' / 2 ≡ fn / 2 + pow2 e = omega (arith, p) in
      let half' : sn' / 2 ≡ sn / 2 + pow2 e = omega (arith, q) in
      record {
        exponent = e;
        below = omega (arith, l);
        ordered = omega (arith, le);
        position = cc (half, half');
      }

  step-high :
      (e fn sn : ℕ) (value sibling : Bytes)
      → fn ≤ sn
      → 1 ≤ sn
      → sn < pow2 e
      → StepHigh
          (step sha256 fn sn value sibling)
          (step sha256 (fn + pow2 e) (sn + pow2 e) value sibling)
  step-high zero fn sn value sibling le p l = absurd (omega (arith, p, l))
  step-high (suc e) fn sn value sibling le p l = elim (Bool-cases (turns fn sn)) [
    | inl t ↦
        let positive : 1 ≤ fn = ground (arith, t, p) in
        let t' : turns (fn + pow2 (suc e)) (sn + pow2 (suc e)) ≡ true = ground (arith, t) in
        let lifted =
          strip-high (suc e) fn (fn + pow2 (suc e)) fn sn positive (omega (arith, le, l)) l
            (omega arith) (omega arith) in
        rw
          (
            step-left fn sn value sibling t,
            step-left (fn + pow2 (suc e)) (sn + pow2 (suc e)) value sibling t',
          )
          (halved lifted.exponent _ _ _ _ (node_hash sha256 sibling value)
            (strip-is_odd fn fn sn positive (omega arith)) (strip-le fn fn sn le) lifted.below
            lifted.below_last lifted.position lifted.last)
    | inr t ↦
        let t' : turns (fn + pow2 (suc e)) (sn + pow2 (suc e)) ≡ false = ground (arith, t) in
        let half : (fn + pow2 (suc e)) / 2 ≡ fn / 2 + pow2 e = omega arith in
        let half' : (sn + pow2 (suc e)) / 2 ≡ sn / 2 + pow2 e = omega arith in
        rw
          (
            step-right fn sn value sibling t,
            step-right (fn + pow2 (suc e)) (sn + pow2 (suc e)) value sibling t',
          )
          (record {
            exponent = e;
            below = omega (arith, l);
            ordered = omega (arith, le);
            position = cc (half, half');
          })
  ]

  -- A sibling is taken where the last position is not 0.
  abbrev pub climb_on : ℕ × ℕ × Bytes → List Bytes → Option (ℕ × ℕ × Bytes)
  climb_on (fn, sn, value) path = climb sha256 fn sn value path

  pub climb-nil : (fn sn : ℕ) (value : Bytes) → climb sha256 fn sn value [] ≡ some (fn, sn, value)
  unfolding climb
  climb-nil fn sn value = refl

  pub climb-next :
      (fn sn : ℕ) (value sibling : Bytes) (path : List Bytes)
      → 1 ≤ sn
      → climb sha256 fn sn value (sibling ∷ path) ≡ climb_on (step sha256 fn sn value sibling) path
  unfolding climb
  climb-next fn sn value sibling path p = let q : (sn == 0) ≡ false = ground (arith, p) in rw q refl

  pub climb-positive :
      (fn sn : ℕ) (value sibling : Bytes) (path : List Bytes) {x : ℕ × ℕ × Bytes}
      → climb sha256 fn sn value (sibling ∷ path) ≡ some x
      → 1 ≤ sn
  unfolding climb
  climb-positive fn zero value sibling path h = absurd (ground (arith, h))
  climb-positive fn (suc sn) value sibling path h = omega arith

  -- A climb to the root of a subtree, with a power of two above both positions.
  pub climb-high :
      (e fn sn : ℕ) (value : Bytes) (path : List Bytes) {root : Bytes}
      → fn ≤ sn
      → sn < pow2 e
      → climb sha256 fn sn value path ≡ some (0, 0, root)
      → (e' : ℕ) × (climb sha256 (fn + pow2 e) (sn + pow2 e) value path
          ≡ some (pow2 e', pow2 e', root))
  climb-high e fn sn value [] le l h =
      let same = sym (climb-nil fn sn value) ∙ h in
      (e, climb-nil (fn + pow2 e) (sn + pow2 e) value ∙ ground (arith, same))
  climb-high e fn sn value (sibling ∷ path) {root} le l h =
      let p = climb-positive fn sn value sibling path h in
      let s = step sha256 fn sn value sibling in
      let up = step-high e fn sn value sibling le p l in
      let low : climb sha256 s.0 s.1 s.2 path ≡ some (0, 0, root) =
        sym (climb-next fn sn value sibling path p) ∙ h in
      let (e', run) = climb-high up.exponent s.0 s.1 s.2 path up.ordered up.below low in
      (
        e',
        climb-next (fn + pow2 e) (sn + pow2 e) value sibling path (omega (arith, p))
            ∙ rw (up.position) run,
      )

  -- A step that shifts by one position.
  step-once :
      (fn sn : ℕ) (value sibling : Bytes)
      → (is_odd fn ≡ false → (fn == sn) ≡ false)
      → step sha256 fn sn value sibling ≡ (
        fn / 2,
        sn / 2,
        if is_odd fn then node_hash sha256 sibling value else node_hash sha256 value sibling,
      )
  step-once fn sn value sibling h = elim (Bool-cases (is_odd fn)) [
    | inl odd ↦
        let stop = strip-odd fn fn sn odd in
        step-left fn sn value sibling (ground (arith, odd)) ∙ rw (odd, stop) refl
    | inr even ↦ step-right fn sn value sibling (ground (arith, even, h even)) ∙ rw even refl
  ]

  -- A climb to the root of a full subtree, in a longer tree.
  pub climb-full :
      (e fn sn : ℕ) (value : Bytes) (path : List Bytes) {root : Bytes}
      → fn < pow2 e
      → pow2 e ≤ sn
      → sn < 2 * pow2 e
      → climb sha256 fn (pow2 e - 1) value path ≡ some (0, 0, root)
      → climb sha256 fn sn value path ≡ some (0, 1, root)
  climb-full zero fn sn value [] l g u h =
      let same = sym (climb-nil fn 0 value) ∙ h in
      climb-nil fn sn value ∙ ground (arith, same, l, g, u)
  climb-full (suc e) fn sn value [] {root} l g u h =
      let last = sym (climb-nil fn (2 * pow2 e - 1) value) ∙ h in
      absurd (ground (arith, last, pow2-positive e))
  climb-full zero fn sn value (sibling ∷ path) l g u h =
      absurd (omega (arith, climb-positive fn 0 value sibling path h))
  climb-full (suc e) fn sn value (sibling ∷ path) {root} l g u h =
      let full = 2 * pow2 e - 1 in
      let p = climb-positive fn full value sibling path h in
      let value' =
        if is_odd fn then node_hash sha256 sibling value else node_hash sha256 value sibling in
      let half : full / 2 ≡ pow2 e - 1 = omega arith in
      let inner : step sha256 fn full value sibling ≡ (fn / 2, pow2 e - 1, value') =
        step-once fn full value sibling (λ even. ground (arith, even)) ∙ rw half refl in
      let outer : step sha256 fn sn value sibling ≡ (fn / 2, sn / 2, value') =
        step-once fn sn value sibling (λ even. ground (arith, l, g)) in
      let low : climb sha256 (fn / 2) (pow2 e - 1) value' path ≡ some (0, 0, root) =
        sym (climb-next fn full value sibling path p ∙ ap (λ x. climb_on x path) inner) ∙ h in
      climb-next fn sn value sibling path (omega (arith, g, pow2-positive e))
      ∙ ap (λ x. climb_on x path) outer
      ∙ climb-full e (fn / 2) (sn / 2) value' path (omega (arith, l)) (omega (arith, g))
          (omega (arith, u)) low

  pub climb-append :
      (fn sn : ℕ) (value : Bytes) (path rest : List Bytes) {fn' sn' : ℕ} {value' : Bytes}
      → climb sha256 fn sn value path ≡ some (fn', sn', value')
      → climb sha256 fn sn value (path ++ rest) ≡ climb sha256 fn' sn' value' rest
  climb-append fn sn value [] rest {fn'} {sn'} {value'} h =
      let same = sym (climb-nil fn sn value) ∙ h in ground (arith, same)
  climb-append fn sn value (sibling ∷ path) rest h =
      let p = climb-positive fn sn value sibling path h in
      let s = step sha256 fn sn value sibling in
      climb-next fn sn value sibling (path ++ rest) p
      ∙ climb-append s.0 s.1 s.2 path rest (sym (climb-next fn sn value sibling path p) ∙ h)

  -- The last sibling of a leaf in the left half, and in the right half.
  pub climb-one_right :
      (value sibling : Bytes)
      → climb sha256 0 1 value (sibling ∷ []) ≡ some (0, 0, node_hash sha256 value sibling)
  climb-one_right value sibling =
      climb-next 0 1 value sibling [] (omega arith)
      ∙ ap (λ x. climb_on x []) (step-right 0 1 value sibling refl)
      ∙ climb-nil 0 0 _

  pub climb-one_left :
      (e : ℕ) (value sibling : Bytes)
      → climb sha256 (pow2 e) (pow2 e) value (sibling ∷ [])
        ≡ some (0, 0, node_hash sha256 sibling value)
  climb-one_left e value sibling =
      let stop = strip-pow2 e (pow2 e) (omega (arith, lt-pow2 e)) in
      let turn : turns (pow2 e) (pow2 e) ≡ true = ground arith in
      let once : step sha256 (pow2 e) (pow2 e) value sibling
          ≡ (0, 0, node_hash sha256 sibling value) =
        step-left (pow2 e) (pow2 e) value sibling turn ∙ rw stop refl in
      climb-next (pow2 e) (pow2 e) value sibling [] (pow2-positive e)
      ∙ ap (λ x. climb_on x []) once
      ∙ climb-nil 0 0 _
