-- ===== src/Auction/Store.antt =====
-- The operations of auction/mod.rs that touch the module's own storage alone.
use archer_in_zoo.Prelude.{
  ℕ, ◌+◌, ◌%◌, ◌^◌, Bool, true, false, not, ◌&&◌, Option, none, some, List, [], ◌∷◌, ◌++◌, ◌==◌,
  if◌then◌else◌, update,
}
use archer_in_zoo.Outcome.{
  ok, err, Action, pure, gets, or_raise, modify, ensure, ◌>>=◌, ◌>>◌, auction_count_overflow,
  auction_does_not_exist, only_owner_can_call,
}
use archer_in_zoo.Auction.Types.{
  AuctionStatus, pending_start, paused, active, same_status, error_str, Auction, StoreVecs,
  pending_vec, active_vec, Event, auction_updated, bidder_updated, Store, auction_id_max,
}

unfoldable pub deposit_event : Event → Store → Store
deposit_event e s = record s { events = s.events ++ e ∷ [] }

-- One auction against a status; a missing one fails the test.
unfoldable pub has_status : Option Auction → AuctionStatus → (not_equal : Bool) → Bool
has_status none status not_equal = false
has_status (some a) status true = not (same_status a.status status)
has_status (some a) status false = same_status a.status status

unfoldable pub is_auctions_with_status :
    (auction_ids : List ℕ) → AuctionStatus → (not_equal : Bool) → Store → Bool
unfolding has_status
is_auctions_with_status [] status not_equal s = true
is_auctions_with_status (i ∷ is) status not_equal s =
    has_status (s.auctions i) status not_equal && is_auctions_with_status is status not_equal s

unfoldable pub get_next_auction_id : Action Store ℕ
get_next_auction_id s =
    if s.next_auction_id == auction_id_max
    then (err auction_count_overflow, s)
    else (ok s.next_auction_id, s)

-- The two optional checks of `_ensure_auction_with_status`.
abbrev pub check_status : Option AuctionStatus → Auction → Action Store (Unit {0})
check_status none a = pure tt
check_status (some st) a = ensure (same_status a.status st) (error_str st)

abbrev pub check_owner : Option ℕ → Auction → Action Store (Unit {0})
check_owner none a = pure tt
check_owner (some account) a = ensure (a.owner == account) only_owner_can_call

unfoldable pub ensure_auction_with_status :
    (auction_id : ℕ) → Option AuctionStatus → (owner : Option ℕ) → Action Store Auction
ensure_auction_with_status auction_id status owner = do
  a ← or_raise (← gets (λ s. s.auctions auction_id)) auction_does_not_exist
  check_status status a
  check_owner owner a
  pure a

abbrev pub vec : StoreVecs → Store → List ℕ
vec pending_vec s = s.pending_auctions
vec active_vec s = s.active_auctions

abbrev pub put_vec : StoreVecs → List ℕ → Store → Store
put_vec pending_vec ids s = record s { pending_auctions = ids }
put_vec active_vec ids s = record s { active_auctions = ids }

-- `stored.iter().all(|auc_id| auc_id != auction_id)`
unfoldable pub all_differ : (auction_id : ℕ) → (stored : List ℕ) → Bool
all_differ i [] = true
all_differ i (j ∷ js) = not (j == i) && all_differ i js

-- The loop of `add_all_to_set`, its test as the source has it: `exists` is true where no stored id
-- is equal, and the id is pushed where `exists` is false.
unfoldable pub add_loop : (auction_ids stored : List ℕ) → List ℕ
unfolding all_differ
add_loop [] stored = stored
add_loop (i ∷ is) stored =
    add_loop is (if not (all_differ i stored) then stored ++ i ∷ [] else stored)

unfoldable pub add_all_to_set : StoreVecs → (auction_ids : List ℕ) → Store → Store
unfolding add_loop
add_all_to_set v ids s = put_vec v (add_loop ids (vec v s)) s

unfoldable pub drop_id : (auction_id : ℕ) → (stored : List ℕ) → List ℕ
drop_id i [] = []
drop_id i (j ∷ js) = if j == i then drop_id i js else j ∷ drop_id i js

unfoldable pub remove_loop : (auction_ids stored : List ℕ) → List ℕ
unfolding drop_id
remove_loop [] stored = stored
remove_loop (i ∷ is) stored = remove_loop is (drop_id i stored)

unfoldable pub remove_all_from_set : StoreVecs → (auction_ids : List ℕ) → Store → Store
unfolding remove_loop
remove_all_from_set v ids s = put_vec v (remove_loop ids (vec v s)) s

-- `<Auctions<T>>::insert`
abbrev pub put_auction : ℕ → Auction → Store → Store
put_auction i a s = record s { auctions = update s.auctions i (some a) }

unfoldable pub insert_auction : (auction_id : ℕ) → Auction → Store → Store
insert_auction i a s = record (put_auction i a s) { next_auction_id = (i + 1) % 2 ^ 32 }

unfoldable pub do_create_auction :
    (owner begin_price minimum_step : ℕ) → (upper_bound_price : Option ℕ) → Action Store ℕ
unfolding get_next_auction_id insert_auction
do_create_auction owner begin_price minimum_step upper_bound_price = do
  auction_id ← get_next_auction_id
  modify (
      insert_auction auction_id (record {
        id = auction_id;
        item = none;
        owner = owner;
        begin_price = begin_price;
        minimum_step = minimum_step;
        status = pending_start;
        upper_bound_price = upper_bound_price;
        start_at = none;
        stop_at = none;
        wait_period = none;
        latest_participate = none;
      }))
  pure auction_id

-- An argument that is given replaces what was set.
abbrev pub replaced : Option ℕ → Option ℕ → Option ℕ
replaced none old = old
replaced (some t) old = some t

unfoldable pub do_setup_moments :
    (owner auction_id : ℕ) → (start_at stop_at wait_period : Option ℕ) → Action Store (Unit {0})
unfolding ensure_auction_with_status add_all_to_set
do_setup_moments owner auction_id start_at stop_at wait_period = do
  a ← ensure_auction_with_status auction_id (some pending_start) (some owner)
  modify (
      put_auction auction_id (record a {
        start_at = replaced start_at a.start_at;
        stop_at = replaced stop_at a.stop_at;
        wait_period = replaced wait_period a.wait_period;
      }))
  modify (add_all_to_set pending_vec (auction_id ∷ []))

abbrev pub with_status : AuctionStatus → Option Auction → Option Auction
with_status st none = none
with_status st (some a) = some (record a { status = st })

unfoldable pub change_auction_status :
    (auction_id : ℕ) → (old_status new_status : AuctionStatus) → Store → Store
unfolding deposit_event
change_auction_status i old_status new_status s =
    deposit_event (auction_updated i old_status new_status)
      (record s { auctions = update s.auctions i (with_status new_status (s.auctions i)) })

unfoldable pub do_pause_auction : (owner auction_id : ℕ) → Action Store (Unit {0})
unfolding ensure_auction_with_status change_auction_status
do_pause_auction owner auction_id = do
  a ← ensure_auction_with_status auction_id (some active) (some owner)
  modify (change_auction_status auction_id a.status paused)

unfoldable pub do_resume_auction : (owner auction_id : ℕ) → Action Store (Unit {0})
unfolding ensure_auction_with_status change_auction_status
do_resume_auction owner auction_id = do
  a ← ensure_auction_with_status auction_id (some paused) (some owner)
  modify (change_auction_status auction_id a.status active)

abbrev pub with_latest : ℕ × ℕ → Option Auction → Option Auction
with_latest p none = none
with_latest p (some a) = some (record a { latest_participate = some p })

unfoldable pub list_contains : List ℕ → ℕ → Bool
list_contains [] a = false
list_contains (x ∷ xs) a = if x == a then true else list_contains xs a

abbrev pub with_participant : ℕ → Option (List ℕ) → List ℕ
with_participant a none = a ∷ []
with_participant a (some ps) = if list_contains ps a then ps else ps ++ a ∷ []

-- `last` is `<aura::Module<T>>::last()`.
unfoldable pub do_participate_auction : (last auction_id account price : ℕ) → Store → Store
unfolding deposit_event list_contains
do_participate_auction last i account price s =
    deposit_event (bidder_updated i account price 0) (record s {
      auctions = update s.auctions i (with_latest (account, last) (s.auctions i));
      auction_participants =
          update s.auction_participants i
            (some (with_participant account (s.auction_participants i)));
    })
