-- ===== src/Auction/Steps.antt =====
-- What one call of auction/mod.rs can do to the module's storage: a sequence of writes.
pub mod Ensured
pub mod Funds
pub mod Owned
pub mod Signed
pub mod Unsigned
use archer_in_zoo.Prelude.{ℕ, ◌≡◌, ◌≢◌, Bool, not, true, false, Option, none, some, List}
use archer_in_zoo.Auction.Types.{
  AuctionStatus, pending_start, paused, active, stopped, same_status, Auction, Store, StoreVecs,
  auction_id_max,
}
use archer_in_zoo.Auction.Store.{
  add_all_to_set, remove_all_from_set, put_auction, insert_auction, change_auction_status,
  do_participate_auction,
}

-- The moves of the life cycle, and staying.
abbrev pub can_move : (status_from status_to : AuctionStatus) → Bool
can_move pending_start active = true
can_move active paused = true
can_move paused active = true
can_move s stopped = true
can_move s s' = same_status s s'

-- The terms of an auction, which its creation fixes.
pub record SameTerms (a a' : Auction) : Type 0 where
  pub id : a'.id ≡ a.id
  pub owner : a'.owner ≡ a.owner
  pub begin_price : a'.begin_price ≡ a.begin_price
  pub upper_bound_price : a'.upper_bound_price ≡ a.upper_bound_price
  pub minimum_step : a'.minimum_step ≡ a.minimum_step

-- The item and the times, which its owner sets before the start.
pub record SamePlan (a a' : Auction) : Type 0 where
  pub item : a'.item ≡ a.item
  pub start_at : a'.start_at ≡ a.start_at
  pub stop_at : a'.stop_at ≡ a.stop_at
  pub wait_period : a'.wait_period ≡ a.wait_period

-- A new auction under the number `i`.
pub record IsNew (i : ℕ) (a : Auction) : Type 0 where
  pub id : a.id ≡ i
  pub status : a.status ≡ pending_start
  pub item : a.item ≡ none
  pub latest_participate : a.latest_participate ≡ none

abbrev pub with_funds : (ℕ → Option ℕ) → (ℕ → ℕ → Option ℕ) → Store → Store
with_funds locks bids s = record s { account_locks = locks; auction_bids = bids }

pub data Write (s : Store) : Store → Type 0 where
  -- Locks and bids.
  funds : (locks : ℕ → Option ℕ) (bids : ℕ → ℕ → Option ℕ) → Write s (with_funds locks bids s)
  creates :
      (a : Auction)
      → s.next_auction_id ≢ auction_id_max
      → IsNew s.next_auction_id a
      → Write s (insert_auction s.next_auction_id a s)
  plans :
      (i : ℕ) (a a' : Auction)
      → s.auctions i ≡ some a
      → a.status ≡ pending_start
      → a'.status ≡ pending_start
      → a'.latest_participate ≡ a.latest_participate
      → SameTerms a a'
      → Write s (put_auction i a' s)
  moves :
      (i : ℕ) (a : Auction) (old new : AuctionStatus)
      → s.auctions i ≡ some a
      → can_move a.status new ≡ true
      → Write s (change_auction_status i old new s)
  bids :
      (last i account price : ℕ) (a : Auction)
      → s.auctions i ≡ some a
      → a.status ≡ active
      → Write s (do_participate_auction last i account price s)
  queues : (v : StoreVecs) (ids : List ℕ) → Write s (add_all_to_set v ids s)
  unqueues : (v : StoreVecs) (ids : List ℕ) → Write s (remove_all_from_set v ids s)

pub data Reach (s : Store) : Store → Type 0 where
  here : Reach s s
  next : {t u : Store} → Reach s t → Write t u → Reach s u

pub one : {s t : Store} → Write s t → Reach s t
one w = next here w

pub Reach-trans : {s t u : Store} → Reach s t → Reach t u → Reach s u
Reach-trans r here = r
Reach-trans r (next q w) = next (Reach-trans r q) w

-- A write that leaves the locks, the bids and the participants, and stops no auction.
abbrev pub is_quiet : {s t : Store} → Write s t → Bool
is_quiet (funds l b) = false
is_quiet (creates a room new) = true
is_quiet (plans i a a' found p p' latest terms) = true
is_quiet (moves i a old new found m) = not (same_status new stopped)
is_quiet (bids last i account price a found m) = false
is_quiet (queues v ids) = true
is_quiet (unqueues v ids) = true

-- A sequence of such writes.
pub data Calm (s : Store) : Store → Type 0 where
  still : Calm s s
  after : {t u : Store} → Calm s t → (w : Write t u) → is_quiet w ≡ true → Calm s u

pub quietly : {s t : Store} → (w : Write s t) → is_quiet w ≡ true → Calm s t
quietly w q = after still w q

pub Calm-trans : {s t u : Store} → Calm s t → Calm t u → Calm s u
Calm-trans r still = r
Calm-trans r (after c w q) = after (Calm-trans r c) w q

pub Calm-Reach : {s t : Store} → Calm s t → Reach s t
Calm-Reach still = here
Calm-Reach (after c w q) = next (Calm-Reach c) w
