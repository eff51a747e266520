-- ===== src/Auction.antt =====
-- substrate-kitties/runtime/src/auction/mod.rs, by its parts.
pub mod Types
pub mod Store
pub mod Currency
pub mod Funds
pub mod Calls
pub mod Passive
pub mod Offchain
pub mod Dispatch
pub mod Steps
pub mod Queues
pub mod WellFormed
pub mod LifeCycle
pub mod Idle
pub mod Participants
pub mod Bids
pub mod Settlement
pub mod Accounts
pub mod Leads
pub mod Log
pub mod Rounds
pub mod Sweeps
pub mod Deliveries
pub mod Due
pub mod Fees
pub mod Validation
pub mod Tests
