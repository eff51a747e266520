-- ===== src/Auction/Tests/Histories.antt =====
-- Histories of calls: what the theorems say of them, and one that ends in a stuck auction.
use archer_in_zoo.Prelude.{ℕ, ◌≡◌, refl, Option, none, some, List, [], ◌∷◌, contains}
use archer_in_zoo.Outcome.{err, no_global_lock}
use archer_in_zoo.Kitties.{kitty, insert_kitty}
use archer_in_zoo.Kitties.Items.{kitty_items}
use archer_in_zoo.Auction.Types.{Auction, Store, active, active_vec}
use archer_in_zoo.Auction.Store.{vec, add_all_to_set}
use archer_in_zoo.Auction.Funds.{do_settle_auction}
use archer_in_zoo.Auction.Calls.{participate, do_stop_auction}
use archer_in_zoo.Auction.Log.{replay, stored, replay-run}
use archer_in_zoo.Auction.Passive.{Keys, Aura, start_auctions_passive, stop_auctions_passive}
use archer_in_zoo.Auction.Offchain.{starting_auction_ids, stoping_auction_ids}
use archer_in_zoo.Auction.Dispatch
use archer_in_zoo.Auction.Dispatch.{
  Call, create_call, add_item_call, setup_call, participate_call, start_passive_call, run,
}
use archer_in_zoo.Auction.WellFormed.{WellFormed, empty-WellFormed}
use archer_in_zoo.Auction.LifeCycle.{Evolves, auction-Evolves, run-WellFormed}
use archer_in_zoo.Auction.Queues.{contains-add_all_to_set}
use archer_in_zoo.Auction.Idle.{worker_idle}
use archer_in_zoo.Auction.Tests.{
  Balances, coins, seals, some_system, some_aura, some_auction, some_store, some_kitties,
  some_world, some_store-WellFormed,
}

abbrev pub keep : Balances × archer_in_zoo.Kitties.State → Balances × archer_in_zoo.Kitties.State
keep x = x

-- Account 1 offers its kitty, the worker's call starts the auction, and account 2 bids.
abbrev pub some_calls : List (
    Aura
    × Option ℕ
    × Call ℕ
    × (Balances × archer_in_zoo.Kitties.State → Balances × archer_in_zoo.Kitties.State))
some_calls =
    (some_aura, some 1, create_call 10 5 none, keep)
    ∷ (some_aura, some 1, add_item_call 0 0, keep)
    ∷ (some_aura, some 1, setup_call 0 (some 10) (some 90) none, keep)
    ∷ (some_aura, none, start_passive_call (0 ∷ []) 7, keep)
    ∷ (some_aura, some 2, participate_call 0 100, keep)
    ∷ []

abbrev after_calls : Store
after_calls =
    (run coins kitty_items seals some_system some_calls
      (archer_in_zoo.Auction.Dispatch.genesis (λ q. 1000) some_kitties)).store

run-WellFormed_example : WellFormed after_calls
run-WellFormed_example =
    run-WellFormed coins kitty_items seals some_system some_calls
      (archer_in_zoo.Auction.Dispatch.genesis (λ q. 1000) some_kitties) empty-WellFormed

auction-Evolves_example :
    (a' : Auction) × ((run coins kitty_items seals some_system some_calls some_world).store.auctions
        0
      ≡ some a')
    × Evolves some_auction a'
auction-Evolves_example =
    auction-Evolves coins kitty_items seals some_system some_calls some_world 0 some_auction
      some_store-WellFormed refl

worker_idle_example :
    (starting_auction_ids 100 after_calls ≡ [])
    × (stoping_auction_ids 100 after_calls ≡ [])
    × ((item : ℕ) → after_calls.auction_items item ≡ none)
worker_idle_example =
    worker_idle coins kitty_items seals some_system some_calls (λ q. 1000) some_kitties 100

contains-add_all_to_set_example :
    contains 3 (vec active_vec (add_all_to_set active_vec (3 ∷ []) some_store))
    ≡ contains 3 (vec active_vec some_store)
contains-add_all_to_set_example = contains-add_all_to_set active_vec 3 (3 ∷ []) some_store

replay-run_example : replay 0 after_calls.events ≡ stored (after_calls.auctions 0)
replay-run_example =
    replay-run coins kitty_items seals some_system some_calls (λ q. 1000) some_kitties 0

-- Started, and account 2 has bid.
heard_test : replay 0 after_calls.events ≡ record { status = active; bidder = some 2 }
unfolding run archer_in_zoo.Auction.Dispatch.dispatch
    archer_in_zoo.Auction.Calls.participate_auction
    archer_in_zoo.Auction.Passive.start_auctions_passive archer_in_zoo.Auction.Calls.create_auction
    archer_in_zoo.Auction.Calls.setup_moments archer_in_zoo.Auction.Calls.add_item
    archer_in_zoo.Kitties.Items.is_item_owner archer_in_zoo.Kitties.is_kitty_owner insert_kitty
    archer_in_zoo.LinkedItem.append
heard_test = refl

-- Accounts 1 and 2 own auctions 0 and 1 without items; account 3 bids nothing on both. Once one is
-- stopped, account 3's lock entry is gone and the other cannot be stopped.
abbrev pub zero_bids : List (
    Aura
    × Option ℕ
    × Call ℕ
    × (Balances × archer_in_zoo.Kitties.State → Balances × archer_in_zoo.Kitties.State))
zero_bids =
    (some_aura, some 1, create_call 10 5 none, keep)
    ∷ (some_aura, some 2, create_call 10 5 none, keep)
    ∷ (some_aura, none, start_passive_call (0 ∷ 1 ∷ []) 7, keep)
    ∷ (some_aura, some 3, participate_call 0 0, keep)
    ∷ (some_aura, some 3, participate_call 1 0, keep)
    ∷ (some_aura, some 1, Call.stop_call 0, keep)
    ∷ []

zero_bids_test :
    (do_stop_auction coins kitty_items 2 1 (
      run coins kitty_items seals some_system zero_bids
        (archer_in_zoo.Auction.Dispatch.genesis (λ q. 1000) some_kitties))).0
    ≡ err no_global_lock
unfolding run do_stop_auction archer_in_zoo.Auction.Dispatch.dispatch
    archer_in_zoo.Auction.Calls.stop_auction archer_in_zoo.Auction.Calls.participate_auction
    archer_in_zoo.Auction.Passive.start_auctions_passive archer_in_zoo.Auction.Calls.create_auction
    do_settle_auction
zero_bids_test = refl
