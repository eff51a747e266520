-- ===== src/Auction/Rounds.antt =====
-- A round of the off-chain worker of auction/mod.rs and the block that takes in what it submits.
pub mod Effects
pub mod Settled
pub mod Included
