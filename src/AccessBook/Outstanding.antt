-- ===== src/AccessBook/Outstanding.antt =====
-- The units of a book's items that have not been redeemed.
use gpu_batch_crypto.Prelude.{
  ℕ, ◌+◌, ◌≤◌, ◌≡◌, refl, inl, inr, Bool, true, false, ◌&&◌, not, some, List, [], ◌∷◌, ◌++◌, map,
  Text, text_eq, arith, any, All, Bool-cases, text_eq_refl, text_eq_comm, text_eq_iff,
}
use gpu_batch_crypto.Sql.{select_first, select_sum}
use gpu_batch_crypto.Sql.Laws.{Single, select_sum-append, le-select_sum, any-append}
use gpu_batch_crypto.AccessBook.Checks.{Offer}
use gpu_batch_crypto.AccessBook.Tables.{Item, Redemption, item_key, redemption_key}
use gpu_batch_crypto.AccessBook.Clearing.{total_units, to_item}

abbrev pub is_outstanding : Text → List Redemption → Item → Bool
is_outstanding id rs i = text_eq i.book id && not (any (redemption_key i.book i.resource) rs)

unfoldable pub outstanding : Text → List Item → List Redemption → ℕ
outstanding id items rs = select_sum (is_outstanding id rs) (λ i. i.units) items

pub outstanding-append :
    (id : Text) (xs ys : List Item) (rs : List Redemption)
    → outstanding id (xs ++ ys) rs ≡ outstanding id xs rs + outstanding id ys rs
unfolding outstanding
outstanding-append id xs ys rs = select_sum-append (is_outstanding id rs) (λ i. i.units) xs ys

pub le-outstanding :
    (id resource : Text) (items : List Item) (rs : List Redemption) {i : Item}
    → select_first (item_key id resource) items ≡ some i
    → is_outstanding id rs i ≡ true
    → i.units ≤ outstanding id items rs
unfolding outstanding
le-outstanding id resource items rs e t =
    le-select_sum (item_key id resource) (is_outstanding id rs) (λ i. i.units) items e t

-- A redemption of another book changes nothing.
pub outstanding-redeem_ne :
    (id : Text) (items : List Item) (rs : List Redemption) (r : Redemption)
    → text_eq r.book id ≡ false
    → outstanding id items (rs ++ r ∷ []) ≡ outstanding id items rs
unfolding outstanding select_sum
outstanding-redeem_ne id [] rs r h = refl
outstanding-redeem_ne id (i ∷ items) rs r h = ground (
  arith,
  outstanding-redeem_ne id items rs r h,
  any-append (redemption_key i.book i.resource) rs (r ∷ []),
  text_eq_iff i.book id,
)

-- Nor does one of a resource that no item here has.
outstanding-redeem_absent :
    (id resource : Text) (items : List Item) (rs : List Redemption) (r : Redemption)
    → any (item_key id resource) items ≡ false
    → r.resource ≡ resource
    → outstanding id items (rs ++ r ∷ []) ≡ outstanding id items rs
unfolding outstanding select_sum
outstanding-redeem_absent id resource [] rs r h e = refl
outstanding-redeem_absent id resource (i ∷ items) rs r h e = ground (
  arith,
  outstanding-redeem_absent id resource items rs r,
  any-append (redemption_key i.book i.resource) rs (r ∷ []),
  text_eq_comm r.resource i.resource,
)

-- A redemption of an outstanding item takes its units off.
pub outstanding-redeem :
    (id resource : Text) (items : List Item) (rs : List Redemption) (r : Redemption) {i : Item}
    → Single (item_key id resource) items
    → select_first (item_key id resource) items ≡ some i
    → any (redemption_key id resource) rs ≡ false
    → r.book ≡ id
    → r.resource ≡ resource
    → outstanding id items (rs ++ r ∷ []) + i.units ≡ outstanding id items rs
unfolding outstanding select_sum select_first
outstanding-redeem id resource [] rs r s e h rb rr = cc
outstanding-redeem id resource (j ∷ items) rs r {i} s e h rb rr =
    elim (Bool-cases (item_key id resource j)) [
      | inl t ↦ ground (
        arith,
        t,
        outstanding-redeem_absent id resource items rs r,
        any-append (redemption_key j.book j.resource) rs (r ∷ []),
        text_eq_iff j.book id,
        text_eq_iff j.resource resource,
        text_eq_refl id,
        text_eq_refl resource,
        s.0,
      )
      | inr t ↦ ground (
        arith,
        t,
        outstanding-redeem id resource items rs r {i = i} s.1,
        any-append (redemption_key j.book j.resource) rs (r ∷ []),
        text_eq_comm r.resource j.resource,
      )
    ]

-- A book that no item refers to has nothing outstanding.
pub outstanding_fresh :
    (id : Text) (items : List Item) (rs : List Redemption)
    → All (λ (i : Item). text_eq i.book id ≡ false) items
    → outstanding id items rs ≡ 0
unfolding outstanding select_sum
outstanding_fresh id [] rs h = refl
outstanding_fresh id (i ∷ items) rs h = ground (arith, outstanding_fresh id items rs h.1)

-- The items of a new book are all outstanding.
pub outstanding_new :
    (id : Text) (offers : List Offer) (rs : List Redemption)
    → All (λ (r : Redemption). text_eq r.book id ≡ false) rs
    → outstanding id (map (to_item id) offers) rs ≡ total_units offers
unfolding outstanding select_sum total_units to_item
outstanding_new id [] rs h = refl
outstanding_new id (o ∷ offers) rs h =
    ground
      (arith, outstanding_new id offers rs h, none_redeemed id o.resource rs h, text_eq_refl id)
  where
    none_redeemed :
        (id resource : Text) (rs : List Redemption)
        → All (λ (r : Redemption). text_eq r.book id ≡ false) rs
        → any (redemption_key id resource) rs ≡ false
    none_redeemed id resource [] h = refl
    none_redeemed id resource (r ∷ rs) h = ground (arith, none_redeemed id resource rs h.1)

-- They are none of another book's.
pub outstanding_other :
    (id other : Text) (offers : List Offer) (rs : List Redemption)
    → text_eq id other ≡ false
    → outstanding other (map (to_item id) offers) rs ≡ 0
unfolding outstanding select_sum to_item
outstanding_other id other [] rs h = refl
outstanding_other id other (o ∷ offers) rs h =
    ground (arith, outstanding_other id other offers rs h)
