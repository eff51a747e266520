-- ===== src/Auction/Fees.antt =====
-- `_calc_auctino_fee`.
use archer_in_zoo.Prelude.{ℕ, ◌+◌, ◌≡◌, if◌then◌else◌, ltb, arith}
use archer_in_zoo.Auction.Funds.{calc_auctino_fee}

-- The price is split without loss into what the owner gets and the fee, and the fee is 1 from a price
-- of 20 on and 0 below.
pub calc_auctino_fee_lem :
    (price : ℕ)
    → ((calc_auctino_fee price).0 + (calc_auctino_fee price).1 ≡ price)
      × ((calc_auctino_fee price).1 ≡ (if ltb price 20 then 0 else 1))
unfolding calc_auctino_fee
calc_auctino_fee_lem price = (ground arith, ground arith)
