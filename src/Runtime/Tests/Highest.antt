-- ===== src/Runtime/Tests/Highest.antt =====
-- Two accounts bid on one kitty.
use archer_in_zoo.Prelude.{ℕ, ◌<◌, refl, Option, none, some, List, [], ◌∷◌, ◌++◌}
use archer_in_zoo.Kitties.{State}
use archer_in_zoo.Auction.Types.{Auction, active}
use archer_in_zoo.Auction.Funds.{bid_of}
use archer_in_zoo.Auction.Dispatch as Auctions
use archer_in_zoo.Auction.Tests.{Balances, coins, seals, some_system, some_aura}
use archer_in_zoo.Runtime.{RuntimeCall, auctions_call, run_calls}
use archer_in_zoo.Runtime.Highest.{run_calls-highest}
use archer_in_zoo.Runtime.Tests.{some_hash, sale_calls, start}

abbrev raised_calls : List (RuntimeCall Balances ℕ (Option ℕ))
raised_calls = sale_calls ++ auctions_call some_aura (some 3) (Auctions.participate_call 0 130) ∷ []

abbrev raised_auction : Auction
raised_auction = record {
  id = 0;
  item = some 0;
  owner = 1;
  start_at = none;
  stop_at = none;
  wait_period = none;
  begin_price = 10;
  upper_bound_price = none;
  minimum_step = 5;
  latest_participate = some (3, 100);
  status = active;
}

run_calls-highest_example :
    100 < bid_of 0 3 (run_calls coins seals some_system some_hash raised_calls start).store
unfolding run_calls Auctions.dispatch archer_in_zoo.Auction.Calls.participate_auction
    archer_in_zoo.Auction.Passive.start_auctions_passive archer_in_zoo.Auction.Calls.add_item
    archer_in_zoo.Kitties.Items.is_item_owner archer_in_zoo.Auction.Calls.create_auction
    archer_in_zoo.Kitties.History.dispatch archer_in_zoo.Kitties.create
    archer_in_zoo.LinkedItem.append archer_in_zoo.Kitties.is_kitty_owner
run_calls-highest_example =
    run_calls-highest coins seals some_system some_hash raised_calls (λ q. 1000) refl 0
      raised_auction 3 100 2 100 refl refl refl refl
