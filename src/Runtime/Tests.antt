-- ===== src/Runtime/Tests.antt =====
-- A history of the runtime: a kitty is created, offered and sold.
pub mod Highest
pub mod Sellable
use archer_in_zoo.Prelude.{
  true, ◌==◌, ℕ, ◌≤◌, ◌≡◌, refl, Option, none, some, List, [], ◌∷◌, ◌=?◌, is_some, ltb, replicate,
  ◌+◌, ◌-◌, leb, if◌then◌else◌,
}
use archer_in_zoo.System.{Block, Hash}
use archer_in_zoo.Kitties.{is_kitty_owner, kitty_index_max}
use archer_in_zoo.Kitties.Calls as Kitties
use archer_in_zoo.Auction.Currency.{World}
use archer_in_zoo.Auction.Dispatch as Auctions
use archer_in_zoo.Auction.WellFormed.{WellFormed}
use archer_in_zoo.Auction.Tests.{Balances, coins, seals, some_system, some_aura}
use archer_in_zoo.Runtime.{
  RuntimeCall, kitties_call, auctions_call, framework_call, run_calls, dispatch_call,
}
use archer_in_zoo.Auction.Types.{Auction, active}
use archer_in_zoo.Runtime.Sales.{stop_call-sold}
use archer_in_zoo.Runtime.Transactions.{Transaction, Payloads, SignedExtra, signer}
use archer_in_zoo.Runtime.Histories.{Released, run_calls-Released, run_calls_owners}

abbrev some_block : Block
some_block = record { random_seed = []; extrinsic_index = none; block_number = 1 }

abbrev pub some_hash : Hash
some_hash seed sender index number = replicate 16 (sender + number)

abbrev pub start : World Balances archer_in_zoo.Kitties.State
start = Auctions.genesis (λ q. 1000) archer_in_zoo.Kitties.genesis

-- Account 1 creates kitty 0 and offers it, the auction starts, and account 2 bids 100.
abbrev pub sale_calls : List (RuntimeCall Balances ℕ (Option ℕ))
sale_calls =
    kitties_call (Kitties.create_call (some 1) some_block)
    ∷ auctions_call some_aura (some 1) (Auctions.create_call 10 5 none)
    ∷ auctions_call some_aura (some 1) (Auctions.add_item_call 0 0)
    ∷ framework_call (coins.transfer 3 2 50)
    ∷ auctions_call some_aura none (Auctions.start_passive_call (0 ∷ []) 7)
    ∷ auctions_call some_aura (some 2) (Auctions.participate_call 0 100)
    ∷ []

run_calls_owners_example :
    let w = run_calls coins seals some_system some_hash sale_calls start in
    (is_some (w.items.kitties 0) ≡ ltb 0 w.items.kitties_count)
    × (is_some (w.items.kitty_owners 0) ≡ ltb 0 w.items.kitties_count)
    × (is_kitty_owner 1 0 w.items ≡ (w.items.kitty_owners 0 =? some 1))
    × (w.items.kitties_count ≤ kitty_index_max)
    × WellFormed w.store
run_calls_owners_example =
    run_calls_owners coins seals some_system some_hash sale_calls (λ q. 1000) 0 1

-- The owner stops the auction, and loses the kitty to the bidder.
run_calls-Released_example :
    Released coins seals some_system some_hash
      (auctions_call some_aura (some 1) (Auctions.stop_call 0))
      (run_calls coins seals some_system some_hash sale_calls start)
      1
      0
unfolding is_kitty_owner run_calls Auctions.dispatch archer_in_zoo.Auction.Calls.participate_auction
    archer_in_zoo.Auction.Passive.start_auctions_passive archer_in_zoo.Auction.Calls.add_item
    archer_in_zoo.Kitties.Items.is_item_owner archer_in_zoo.Auction.Calls.create_auction
    archer_in_zoo.Kitties.History.dispatch archer_in_zoo.Kitties.create
    archer_in_zoo.LinkedItem.append archer_in_zoo.Auction.Calls.stop_auction
    archer_in_zoo.Auction.Funds.do_settle_auction archer_in_zoo.Kitties.Items.transfer_item
    archer_in_zoo.Kitties.transfer_kitty archer_in_zoo.LinkedItem.remove
run_calls-Released_example =
    run_calls-Released coins seals some_system some_hash sale_calls (λ q. 1000)
      (auctions_call some_aura (some 1) (Auctions.stop_call 0)) 1 0 refl refl

-- Keys sign with their number, and a payload is its parts.
abbrev some_payloads : Payloads ℕ (ℕ × ℕ) (ℕ × SignedExtra (ℕ × ℕ)) ℕ ℕ ℕ
some_payloads = record {
  mortal = λ period current. (period, current);
  payload = λ call extra. some (call, extra);
  deconstruct = λ p. p;
  sign = λ public p. some public;
  verify = λ signer p signature. signature == signer;
  unlookup = λ account. account + 1000;
  lookup = λ address. if leb 1000 address then some (address - 1000) else none;
}

abbrev some_extra : SignedExtra (ℕ × ℕ)
some_extra = record { era = (256, 77); nonce = 4; tip = 0 }

abbrev some_account : ℕ
some_account = 9

abbrev some_tx : Transaction some_payloads
some_tx = (5, (1009, 9, some_extra))

-- Account 9's transaction with the signature of key 6 is nobody's.
wrong_key_test : signer some_payloads (5, (1009, 6, some_extra)) ≡ none
wrong_key_test = refl

abbrev pub sold_auction : Auction
sold_auction = record {
  id = 0;
  item = some 0;
  owner = 1;
  start_at = none;
  stop_at = none;
  wait_period = none;
  begin_price = 10;
  upper_bound_price = none;
  minimum_step = 5;
  latest_participate = some (2, 100);
  status = active;
}

abbrev pub before_sale : World Balances archer_in_zoo.Kitties.State
before_sale = run_calls coins seals some_system some_hash sale_calls start

abbrev pub after_sale : World Balances archer_in_zoo.Kitties.State
after_sale =
    (dispatch_call coins seals some_system some_hash
      (auctions_call some_aura (some 1) (Auctions.stop_call 0)) before_sale).1

stop_call-sold_example :
    (is_kitty_owner 1 0 before_sale.items ≡ true)
    × ((who : ℕ)
        → (is_kitty_owner who 0 after_sale.items ≡ (who == 2))
          × ((after_sale.items.kitty_owners 0 =? some who) ≡ (who == 2)))
unfolding is_kitty_owner run_calls Auctions.dispatch archer_in_zoo.Auction.Calls.participate_auction
    archer_in_zoo.Auction.Passive.start_auctions_passive archer_in_zoo.Auction.Calls.add_item
    archer_in_zoo.Kitties.Items.is_item_owner archer_in_zoo.Auction.Calls.create_auction
    archer_in_zoo.Kitties.History.dispatch archer_in_zoo.Kitties.create
    archer_in_zoo.LinkedItem.append archer_in_zoo.Auction.Calls.stop_auction
    archer_in_zoo.Auction.Funds.do_settle_auction archer_in_zoo.Kitties.Items.transfer_item
    archer_in_zoo.Kitties.transfer_kitty archer_in_zoo.LinkedItem.remove
stop_call-sold_example =
    stop_call-sold coins seals some_system some_hash sale_calls (λ q. 1000) some_aura (some 1) 0
      sold_auction 2 100 0 refl refl refl refl
