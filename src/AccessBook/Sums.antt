-- ===== src/AccessBook/Sums.antt =====
-- The sums of units that the clearing keeps, and what each write does to them.
use gpu_batch_crypto.Prelude.{
  ◌+◌, ◌≤◌, ◌≡◌, refl, inl, inr, true, false, Option, some, List, [], ◌∷◌, ◌++◌, Text, text_eq,
  if◌then◌else◌, arith, any, All, Bool-cases, text_eq_sound,
}
use gpu_batch_crypto.Sql.{select_first, select_sum, update_where}
use gpu_batch_crypto.Sql.Laws.{Single, select_sum-append, le-select_sum}
use gpu_batch_crypto.Sql.Update.{select_sum-update}
use gpu_batch_crypto.AccessBook.Tables.{
  Account, Book, Redemption, Publisher, of_buyer, of_id, publisher_id,
}
use gpu_batch_crypto.AccessBook.Clearing.{sum_remaining, sum_redeemed, sum_accrued}

pub sum_remaining-append :
    (buyer : Text) (books : List Book) (b : Book)
    → sum_remaining buyer (books ++ b ∷ [])
      ≡ sum_remaining buyer books + (if text_eq b.buyer buyer then b.remaining else 0)
unfolding sum_remaining select_sum
sum_remaining-append buyer books b = omega (
  arith,
  select_sum-append (λ (b : Book). text_eq b.buyer buyer) (λ b. b.remaining) books (b ∷ []),
)

-- One book's remaining units change.
pub sum_remaining-update :
    (buyer id : Text) (g : Book → Option Book) (books : List Book) {books' : List Book}
    {b b' : Book}
    → Single (of_id id) books
    → select_first (of_id id) books ≡ some b
    → g b ≡ some b'
    → update_where (of_id id) g books ≡ some books'
    → sum_remaining buyer books' + (if text_eq b.buyer buyer then b.remaining else 0)
      ≡ sum_remaining buyer books + (if text_eq b'.buyer buyer then b'.remaining else 0)
unfolding sum_remaining
sum_remaining-update buyer id g books s e m u =
    select_sum-update (λ (b : Book). text_eq b.buyer buyer) (of_id id) (λ b. b.remaining) g books s
      e m u

pub le-sum_remaining :
    (buyer id : Text) (books : List Book) {b : Book}
    → select_first (of_id id) books ≡ some b
    → text_eq b.buyer buyer ≡ true
    → b.remaining ≤ sum_remaining buyer books
unfolding sum_remaining
le-sum_remaining buyer id books e t =
    le-select_sum (of_id id) (λ (b : Book). text_eq b.buyer buyer) (λ b. b.remaining) books e t

pub sum_redeemed-append :
    (buyer : Text) (rs : List Redemption) (r : Redemption)
    → sum_redeemed buyer (rs ++ r ∷ [])
      ≡ sum_redeemed buyer rs + (if text_eq r.buyer buyer then r.units else 0)
unfolding sum_redeemed select_sum
sum_redeemed-append buyer rs r = omega (
  arith,
  select_sum-append (λ (r : Redemption). text_eq r.buyer buyer) (λ r. r.units) rs (r ∷ []),
)

pub sum_accrued-append :
    (id : Text) (rs : List Redemption) (r : Redemption)
    → sum_accrued id (rs ++ r ∷ [])
      ≡ sum_accrued id rs + (if text_eq r.publisher id then r.units else 0)
unfolding sum_accrued select_sum
sum_accrued-append id rs r = omega (
  arith,
  select_sum-append (λ (r : Redemption). text_eq r.publisher id) (λ r. r.units) rs (r ∷ []),
)

-- Nothing is owed to a buyer without an account, if every row refers to an account.
pub sum_remaining_unknown :
    (accounts : List Account) (buyer : Text) (books : List Book)
    → any (of_buyer buyer) accounts ≡ false
    → All (λ (b : Book). any (of_buyer b.buyer) accounts ≡ true) books
    → sum_remaining buyer books ≡ 0
unfolding sum_remaining select_sum
sum_remaining_unknown accounts buyer [] h k = refl
sum_remaining_unknown accounts buyer (b ∷ books) h k = elim (Bool-cases (text_eq b.buyer buyer)) [
  | inl t ↦
      let e : any (of_buyer buyer) accounts ≡ true =
        (rw (text_eq_sound b.buyer buyer t) at (k.0)) in
      absurd (cc)
  | inr t ↦ ground (arith, sum_remaining_unknown accounts buyer books h k.1, t)
]

pub sum_redeemed_unknown :
    (accounts : List Account) (buyer : Text) (rs : List Redemption)
    → any (of_buyer buyer) accounts ≡ false
    → All (λ (r : Redemption). any (of_buyer r.buyer) accounts ≡ true) rs
    → sum_redeemed buyer rs ≡ 0
unfolding sum_redeemed select_sum
sum_redeemed_unknown accounts buyer [] h k = refl
sum_redeemed_unknown accounts buyer (r ∷ rs) h k = elim (Bool-cases (text_eq r.buyer buyer)) [
  | inl t ↦
      let e : any (of_buyer buyer) accounts ≡ true =
        (rw (text_eq_sound r.buyer buyer t) at (k.0)) in
      absurd (cc)
  | inr t ↦ ground (arith, sum_redeemed_unknown accounts buyer rs h k.1, t)
]

pub sum_accrued_unknown :
    (publishers : List Publisher) (id : Text) (rs : List Redemption)
    → any (publisher_id id) publishers ≡ false
    → All (λ (r : Redemption). any (publisher_id r.publisher) publishers ≡ true) rs
    → sum_accrued id rs ≡ 0
unfolding sum_accrued select_sum
sum_accrued_unknown publishers id [] h k = refl
sum_accrued_unknown publishers id (r ∷ rs) h k = elim (Bool-cases (text_eq r.publisher id)) [
  | inl t ↦
      let e : any (publisher_id id) publishers ≡ true =
        (rw (text_eq_sound r.publisher id t) at (k.0)) in
      absurd (cc)
  | inr t ↦ ground (arith, sum_accrued_unknown publishers id rs h k.1, t)
]
