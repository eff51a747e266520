-- ===== src/Auction/Types.antt =====
-- The data of auction/mod.rs: statuses, auctions, the storage of the module and its events. Account,
-- auction and item ids are only compared and counted, so they are numbers.
use archer_in_zoo.Prelude.{ℕ, Bool, true, false, Option, none, List, [], ◌∷◌, ◌-◌, ◌^◌}
use archer_in_zoo.Outcome.{
  Error, already_started_or_over, should_be_paused, should_be_active, should_be_stopped,
}

pub data AuctionStatus : Type 0 where
  pending_start paused active stopped : AuctionStatus

-- `==` on statuses.
abbrev pub same_status : AuctionStatus → AuctionStatus → Bool
same_status pending_start pending_start = true
same_status paused paused = true
same_status active active = true
same_status stopped stopped = true
same_status _ _ = false

unfoldable pub error_str : AuctionStatus → Error
error_str pending_start = already_started_or_over
error_str paused = should_be_paused
error_str active = should_be_active
error_str stopped = should_be_stopped

pub record Auction : Type 0 where
  pub id : ℕ
  pub item : Option ℕ
  pub owner : ℕ
  pub start_at : Option ℕ
  pub stop_at : Option ℕ
  pub wait_period : Option ℕ
  pub begin_price : ℕ
  pub upper_bound_price : Option ℕ
  pub minimum_step : ℕ
  pub latest_participate : Option (ℕ × ℕ)
  pub status : AuctionStatus

pub data StoreVecs : Type 0 where
  pending_vec active_vec : StoreVecs

pub data Event : Type 0 where
  bidder_updated : (auction_id account price remain : ℕ) → Event
  auction_updated : (auction_id : ℕ) → (status_from status_to : AuctionStatus) → Event

-- The storage items; a map is a function to what it holds, `none` where a key is missing.
pub record Store : Type 0 where
  pub next_auction_id : ℕ
  pub account_locks : ℕ → Option ℕ
  pub auction_items : ℕ → Option ℕ
  pub auctions : ℕ → Option Auction
  pub auction_bids : ℕ → ℕ → Option ℕ
  pub auction_participants : ℕ → Option (List ℕ)
  pub pending_auctions : List ℕ
  pub active_auctions : List ℕ
  pub events : List Event

-- The storage before the first call.
abbrev pub empty_store : Store
empty_store = record {
  next_auction_id = 0;
  account_locks = λ a. none;
  auction_items = λ i. none;
  auctions = λ i. none;
  auction_bids = λ i a. none;
  auction_participants = λ i. none;
  pending_auctions = [];
  active_auctions = [];
  events = [];
}

-- `AuctionId` is `u32`.
abbrev pub auction_id_max : ℕ
auction_id_max = 2 ^ 32 - 1

-- The lock identifier, the bytes of "auction ".
abbrev pub auction_id_lock : List ℕ
auction_id_lock = b'a' ∷ b'u' ∷ b'c' ∷ b't' ∷ b'i' ∷ b'o' ∷ b'n' ∷ b' ' ∷ []
