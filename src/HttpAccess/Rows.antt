-- ===== src/HttpAccess/Rows.antt =====
-- What the assignments of the ledger's UPDATE statements do to one row, where their CHECKs pass.
use gpu_batch_crypto.Prelude.{ℕ, ◌+◌, ◌≡◌, true, some, arith, Text}
use gpu_batch_crypto.HttpAccess.Tables.{
  Account, Book, of_id, reserve_row, buy_row, spend_row, release_row, consume_row, close_row,
}

-- The balance of a row afterwards: the units that each column gains and loses.
pub record Shifted (x y : Account) (available reserved spent lost_available lost_reserved : ℕ)
    : Type 0 where
  pub buyer : y.buyer ≡ x.buyer
  pub initial : y.initial ≡ x.initial
  pub available_after : y.available + lost_available ≡ x.available + available
  pub reserved_after : y.reserved + lost_reserved ≡ x.reserved + reserved
  pub spent_after : y.spent ≡ x.spent + spent
  pub total : y.initial ≡ y.available + y.reserved + y.spent

module _ (n : ℕ) (x : Account) {y : Account} where
  pub reserve_row-Shifted : reserve_row n x ≡ some y → Shifted x y 0 n 0 n 0
  unfolding reserve_row
  reserve_row-Shifted h = record {
    buyer = ground arith;
    initial = ground arith;
    available_after = ground arith;
    reserved_after = ground arith;
    spent_after = ground arith;
    total = ground arith;
  }

  pub buy_row-Shifted : buy_row n x ≡ some y → Shifted x y 0 0 n n 0
  unfolding buy_row
  buy_row-Shifted h = record {
    buyer = ground arith;
    initial = ground arith;
    available_after = ground arith;
    reserved_after = ground arith;
    spent_after = ground arith;
    total = ground arith;
  }

  pub spend_row-Shifted : spend_row n x ≡ some y → Shifted x y 0 0 n 0 n
  unfolding spend_row
  spend_row-Shifted h = record {
    buyer = ground arith;
    initial = ground arith;
    available_after = ground arith;
    reserved_after = ground arith;
    spent_after = ground arith;
    total = ground arith;
  }

  pub release_row-Shifted : release_row n x ≡ some y → Shifted x y n 0 0 0 n
  unfolding release_row
  release_row-Shifted h = record {
    buyer = ground arith;
    initial = ground arith;
    available_after = ground arith;
    reserved_after = ground arith;
    spent_after = ground arith;
    total = ground arith;
  }

module _ (x : Book) {y : Book} where
  pub consume_row-inv :
      (n : ℕ)
      → consume_row n x ≡ some y
      → (y ≡ record x { remaining = y.remaining }) × (y.remaining + n ≡ x.remaining)
  unfolding consume_row
  consume_row-inv n h = (ground arith, ground arith)

  pub close_row-inv : close_row x ≡ some y → y ≡ record x { remaining = 0; closed = true }
  unfolding close_row
  close_row-inv h = cc

  pub of_id-consume_row : (n : ℕ) (id : Text) → consume_row n x ≡ some y → of_id id y ≡ of_id id x
  of_id-consume_row n id h = ground (arith, consume_row-inv n h)

  pub of_id-close_row : (id : Text) → close_row x ≡ some y → of_id id y ≡ of_id id x
  of_id-close_row id h = ground (arith, close_row-inv h)
