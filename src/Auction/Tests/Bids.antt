-- ===== src/Auction/Tests/Bids.antt =====
-- Bids and settlements on the sample storage.
use archer_in_zoo.Auction.Passive.{stop_each}
use archer_in_zoo.Prelude.{
  inl, inr, ◌⊎◌, Bool-cases, refl, Distinct, false, get_or, ℕ, ◌+◌, ◌-◌, ◌^◌, true, ◌≡◌, none, some,
  [], ◌∷◌, ltb, ◌==◌, if◌then◌else◌, arith, contains, update,
}
use archer_in_zoo.Outcome.{ok, increment_too_small}
use archer_in_zoo.Kitties.{kitty, insert_kitty}
use archer_in_zoo.Kitties.Items.{kitty_items, IsSound, kitty_items-Lawful}
use archer_in_zoo.Auction.Currency.{World}
use archer_in_zoo.Auction.Funds.{calc_auctino_fee, unlock_all, do_settle_auction, lock_of, bid_of}
use archer_in_zoo.Auction.Calls.{participate, do_stop_auction}
use archer_in_zoo.Auction.Bids.Succeeds.{participate-ok}
use archer_in_zoo.Auction.Settlement.Stop.{Stopped, do_stop_auction-Stopped}
use archer_in_zoo.Auction.Bids.Taken.{
  has_room, outbids, BidTaken, participate-BidTaken, participate_refused,
}
use archer_in_zoo.Runtime.Constants.{existential_deposit}
use archer_in_zoo.Auction.Fees.{calc_auctino_fee_lem}
use archer_in_zoo.Auction.Settlement.Locks.{unlock_all-locks, unlock_all-held}
use archer_in_zoo.Auction.Settlement.Payment.{do_settle_auction-pays}
use archer_in_zoo.Auction.Settlement.Winner.{do_settle_auction-owner}
use archer_in_zoo.Auction.Tests.{
  Balances, coins, coins-CurrencyLaws, some_auction, some_store, some_world, some_store-WellFormed,
  some_kitties-IsSound,
}

participate-BidTaken_example :
    ((has_room 0 some_auction some_store ≡ false) ⊎ (outbids 0 120 some_auction some_store ≡ true))
    × BidTaken coins 80 3 0 120 some_world (participate coins kitty_items 80 3 0 120 some_world).1
unfolding participate
participate-BidTaken_example =
    participate-BidTaken coins kitty_items 80 3 0 120 some_world some_store-WellFormed (omega arith)
      some_auction refl (omega arith) (omega arith) refl

participate_refused_example : (participate coins kitty_items 80 3 0 104 some_world).1 ≡ some_world
unfolding participate
participate_refused_example =
    participate_refused coins kitty_items 80 3 0 104 some_world some_store-WellFormed (omega arith)
      (omega arith) increment_too_small refl

calc_auctino_fee_lem_example :
    ((calc_auctino_fee 1000).0 + (calc_auctino_fee 1000).1 ≡ 1000)
    × ((calc_auctino_fee 1000).1 ≡ (if ltb 1000 20 then 0 else 1))
calc_auctino_fee_lem_example = calc_auctino_fee_lem 1000

unlock_all-locks_example :
    lock_of 2 (unlock_all coins 0 (3 ∷ 2 ∷ []) some_world).1.store
      + (if contains 2 (3 ∷ 2 ∷ []) then bid_of 0 2 some_store else 0)
    ≡ lock_of 2 some_store
unfolding unlock_all
unlock_all-locks_example =
    unlock_all-locks coins 0 (3 ∷ 2 ∷ []) some_world 2 (refl, (refl, tt)) refl

do_settle_auction-pays_example :
    coins.free_balance (do_settle_auction coins kitty_items some_auction some_world).1.ledger 1
      + (if 1 == 2 then bid_of 0 2 some_store else 0)
    ≡ coins.free_balance some_world.ledger 1
      + (if 1 == 1 then (calc_auctino_fee (bid_of 0 2 some_store)).0 else 0)
unfolding do_settle_auction archer_in_zoo.Kitties.Items.transfer_item
    archer_in_zoo.Kitties.transfer_kitty insert_kitty archer_in_zoo.LinkedItem.append
do_settle_auction-pays_example =
    do_settle_auction-pays coins existential_deposit coins-CurrencyLaws kitty_items some_auction 2
      60 0 some_world refl refl refl (omega arith) 1

do_settle_auction-owner_example :
    kitty_items.is_item_owner 2 0
      (do_settle_auction coins kitty_items some_auction some_world).1.items
    ≡ (2 == 2)
unfolding do_settle_auction archer_in_zoo.Kitties.Items.transfer_item
    archer_in_zoo.Kitties.transfer_kitty insert_kitty archer_in_zoo.LinkedItem.append
    archer_in_zoo.Kitties.Items.is_item_owner archer_in_zoo.Kitties.is_kitty_owner
do_settle_auction-owner_example =
    do_settle_auction-owner coins kitty_items some_auction 2 60 0 some_world refl refl refl IsSound
      kitty_items-Lawful some_kitties-IsSound refl 2

-- Account 3's lock is gone, and it is not listed as a participant.
abbrev unlocked_world : World Balances archer_in_zoo.Kitties.State
unlocked_world = record some_world {
  store = record some_store { account_locks = update (λ q. none) 2 (some 130) };
}

unlock_all-held_example : contains 3 (2 ∷ []) ≡ false
unfolding unlock_all
unlock_all-held_example = unlock_all-held coins 0 (2 ∷ []) unlocked_world 3 refl refl refl

participate-ok_example : (participate coins kitty_items 80 3 0 120 some_world).0 ≡ ok tt
participate-ok_example =
    participate-ok coins kitty_items 80 3 0 120 some_world some_auction some_store-WellFormed refl
      refl refl (omega arith) (omega arith) (omega arith) (omega arith)

some_participants-Distinct : (k : ℕ) → Distinct (get_or (some_store.auction_participants k) [])
some_participants-Distinct k = elim (Bool-cases (k == 0)) [
  | inl same ↦ rw same (refl, (refl, tt))
  | inr apart ↦ rw apart tt
]

do_stop_auction-Stopped_example :
    Stopped coins kitty_items 1 0 some_world (do_stop_auction coins kitty_items 1 0 some_world).1
unfolding do_stop_auction archer_in_zoo.Kitties.Items.transfer_item
    archer_in_zoo.Kitties.transfer_kitty insert_kitty archer_in_zoo.LinkedItem.append
    do_settle_auction
do_stop_auction-Stopped_example =
    do_stop_auction-Stopped coins kitty_items 1 0 some_world some_participants-Distinct refl

-- A list that names the auction twice: its winner, with locks to spare, pays twice.
abbrev locked_world : World Balances archer_in_zoo.Kitties.State
locked_world = record some_world { store = record some_store { account_locks = λ q. some 300 } }

paid_twice_test : (stop_each coins kitty_items (0 ∷ 0 ∷ []) locked_world).ledger 2 ≡ 800
unfolding stop_each do_settle_auction archer_in_zoo.Kitties.Items.transfer_item
    archer_in_zoo.Kitties.transfer_kitty insert_kitty archer_in_zoo.LinkedItem.append
    archer_in_zoo.LinkedItem.remove
paid_twice_test = refl

-- Where the latest bid and the step wrap round, a bid below the latest one is taken.
abbrev wide_step : World Balances archer_in_zoo.Kitties.State
wide_step = record some_world {
  store = record some_store {
    auctions = update (λ i. none) 0 (some (record some_auction { minimum_step = 2 ^ 128 - 96 }));
  };
}

low_bid_test : (participate coins kitty_items 80 4 0 5 wide_step).0 ≡ ok tt
unfolding participate archer_in_zoo.Auction.Funds.do_lock_balance
low_bid_test = refl
