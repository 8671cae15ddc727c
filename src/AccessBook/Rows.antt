-- ===== src/AccessBook/Rows.antt =====
-- What the assignments of the UPDATE statements do to one row, where their CHECKs pass.
use gpu_batch_crypto.Prelude.{ℕ, ◌+◌, ◌≡◌, true, some, arith, Text}
use gpu_batch_crypto.AccessBook.Tables.{
  Account, Book, Publisher, of_buyer, of_id, publisher_id, reserve_row, redeem_row, release_row,
  activate_row, consume_row, close_row, accrue_row,
}

module _ (n : ℕ) (x : Account) {y : Account} where
  pub reserve_row-inv :
      reserve_row n x ≡ some y
      → (y.buyer ≡ x.buyer)
        × (y.available + n ≡ x.available)
        × (y.reserved ≡ x.reserved + n)
        × (y.redeemed ≡ x.redeemed)
        × (y.initial ≡ y.available + y.reserved + y.redeemed)
  unfolding reserve_row
  reserve_row-inv h = (ground arith, ground arith, ground arith, ground arith, ground arith)

  pub redeem_row-inv :
      redeem_row n x ≡ some y
      → (y.buyer ≡ x.buyer)
        × (y.available ≡ x.available)
        × (y.reserved + n ≡ x.reserved)
        × (y.redeemed ≡ x.redeemed + n)
        × (y.initial ≡ y.available + y.reserved + y.redeemed)
  unfolding redeem_row
  redeem_row-inv h = (ground arith, ground arith, ground arith, ground arith, ground arith)

  pub release_row-inv :
      release_row n x ≡ some y
      → (y.buyer ≡ x.buyer)
        × (y.available ≡ x.available + n)
        × (y.reserved + n ≡ x.reserved)
        × (y.redeemed ≡ x.redeemed)
        × (y.initial ≡ y.available + y.reserved + y.redeemed)
  unfolding release_row
  release_row-inv h = (ground arith, ground arith, ground arith, ground arith, ground arith)

  pub of_buyer-reserve_row :
      (buyer : Text) → reserve_row n x ≡ some y → of_buyer buyer y ≡ of_buyer buyer x
  of_buyer-reserve_row buyer h = ground (arith, reserve_row-inv h)

  pub of_buyer-redeem_row :
      (buyer : Text) → redeem_row n x ≡ some y → of_buyer buyer y ≡ of_buyer buyer x
  of_buyer-redeem_row buyer h = ground (arith, redeem_row-inv h)

  pub of_buyer-release_row :
      (buyer : Text) → release_row n x ≡ some y → of_buyer buyer y ≡ of_buyer buyer x
  of_buyer-release_row buyer h = ground (arith, release_row-inv h)

module _ (x : Book) {y : Book} where
  pub activate_row-inv : activate_row x ≡ some y → y ≡ record x { active = true }
  unfolding activate_row
  activate_row-inv h = cc

  pub consume_row-inv :
      (n : ℕ)
      → consume_row n x ≡ some y
      → (y ≡ record x { remaining = y.remaining }) × (y.remaining + n ≡ x.remaining)
  unfolding consume_row
  consume_row-inv n h = (ground arith, ground arith)

  pub close_row-inv : close_row x ≡ some y → y ≡ record x { closed = true; remaining = 0 }
  unfolding close_row
  close_row-inv h = cc

  pub of_id-activate_row : (id : Text) → activate_row x ≡ some y → of_id id y ≡ of_id id x
  of_id-activate_row id h = ground (arith, activate_row-inv h)

  pub of_id-consume_row : (n : ℕ) (id : Text) → consume_row n x ≡ some y → of_id id y ≡ of_id id x
  of_id-consume_row n id h = ground (arith, consume_row-inv n h)

  pub of_id-close_row : (id : Text) → close_row x ≡ some y → of_id id y ≡ of_id id x
  of_id-close_row id h = ground (arith, close_row-inv h)

module _ (n : ℕ) (x : Publisher) {y : Publisher} where
  pub accrue_row-inv : accrue_row n x ≡ some y → (y.id ≡ x.id) × (y.accrued ≡ x.accrued + n)
  unfolding accrue_row
  accrue_row-inv h = (ground arith, ground arith)

  pub publisher_id-accrue_row :
      (id : Text) → accrue_row n x ≡ some y → publisher_id id y ≡ publisher_id id x
  publisher_id-accrue_row id h = ground (arith, accrue_row-inv h)
