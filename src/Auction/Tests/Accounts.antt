-- ===== src/Auction/Tests/Accounts.antt =====
-- The locks over the sample histories of calls.
use archer_in_zoo.Prelude.{Option, ◌∷◌, ℕ, ◌≡◌, refl, true, none, inl, some, List, []}
use archer_in_zoo.Outcome.{other, ok}
use archer_in_zoo.Kitties.{State}
use archer_in_zoo.Auction.Settlement.Failed.{LeftBehind, do_stop_auction-LeftBehind}
use archer_in_zoo.Kitties.Items.{IsSound, kitty_items-Lawful, kitty_items}
use archer_in_zoo.Auction.Types.{Auction, active}
use archer_in_zoo.Auction.Currency.{World}
use archer_in_zoo.Auction.Calls.{do_stop_auction}
use archer_in_zoo.Auction.Passive.{Aura}
use archer_in_zoo.Auction.Dispatch.{
  Call, run, genesis, create_call, participate_call, start_passive_call,
}
use archer_in_zoo.Auction.Accounts.{Accounted, empty-Accounted}
use archer_in_zoo.Auction.Accounts.Histories.{all_careful, run-Accounted}
use archer_in_zoo.Auction.Accounts.Stoppable.{do_stop_auction_after}
use archer_in_zoo.Auction.Tests.{
  some_world, some_kitties-IsSound, some_aura, Balances, coins, seals, some_system, some_kitties,
}
use archer_in_zoo.Auction.Tests.Histories.{keep, some_calls}

abbrev start : World Balances State
start = genesis (λ q. 1000) some_kitties

some_calls_careful : all_careful coins kitty_items seals some_system some_calls start ≡ true
some_calls_careful = refl

run-Accounted_example : Accounted (run coins kitty_items seals some_system some_calls start).store
run-Accounted_example =
    run-Accounted coins kitty_items seals some_system some_calls start some_calls_careful
      empty-Accounted

-- Account 1's auction has no item; account 2 bids 100 on it.
abbrev unsold_calls : List (Aura × Option ℕ × Call ℕ × (Balances × State → Balances × State))
unsold_calls =
    (some_aura, some 1, create_call 10 5 none, keep)
    ∷ (some_aura, none, start_passive_call (0 ∷ []) 7, keep)
    ∷ (some_aura, some 2, participate_call 0 100, keep)
    ∷ []

unsold_careful : all_careful coins kitty_items seals some_system unsold_calls start ≡ true
unsold_careful = refl

abbrev unsold : Auction
unsold = record {
  id = 0;
  item = none;
  owner = 1;
  start_at = none;
  stop_at = none;
  wait_period = none;
  begin_price = 10;
  upper_bound_price = none;
  minimum_step = 5;
  latest_participate = some (2, 100);
  status = active;
}

do_stop_auction_after_example :
    (do_stop_auction coins kitty_items 1 0
      (run coins kitty_items seals some_system unsold_calls start)).0
    ≡ ok tt
unfolding run archer_in_zoo.Auction.Dispatch.dispatch
    archer_in_zoo.Auction.Calls.participate_auction
    archer_in_zoo.Auction.Passive.start_auctions_passive archer_in_zoo.Auction.Calls.create_auction
do_stop_auction_after_example =
    do_stop_auction_after coins kitty_items seals some_system unsold_calls start 0 unsold
      unsold_careful empty-Accounted refl refl (inl refl)

-- Nobody has any money: the winner cannot pay, and the locks are gone.
abbrev poor_world : World Balances State
poor_world = record some_world { ledger = λ q. 0 }

do_stop_auction-LeftBehind_example :
    LeftBehind poor_world (do_stop_auction coins kitty_items 1 0 poor_world).1
unfolding do_stop_auction archer_in_zoo.Auction.Funds.do_settle_auction
do_stop_auction-LeftBehind_example =
    do_stop_auction-LeftBehind coins kitty_items IsSound kitty_items-Lawful 1 0 poor_world (other 0)
      some_kitties-IsSound refl
