-- ===== src/Runtime/Tests/Sellable.antt =====
-- The kitty of the sample history is sold.
use archer_in_zoo.Prelude.{◌≡◌, refl, some, arith}
use archer_in_zoo.Outcome.{ok}
use archer_in_zoo.Kitties.{is_kitty_owner}
use archer_in_zoo.Auction.Dispatch as Auctions
use archer_in_zoo.Auction.Tests.{coins, coins-CurrencyLaws, seals, some_system, some_aura}
use archer_in_zoo.Auction.Tests.Sales.{maximum, coins-CurrencyProgress}
use archer_in_zoo.Runtime.{auctions_call, run_calls, dispatch_call}
use archer_in_zoo.Runtime.Constants.{existential_deposit}
use archer_in_zoo.Runtime.Sellable.{KittySale, stop_call-KittySale}
use archer_in_zoo.Runtime.Tests.{some_hash, sale_calls, sold_auction, before_sale, after_sale}

stop_call-KittySale_example :
    ((dispatch_call coins seals some_system some_hash
        (auctions_call some_aura (some 1) (Auctions.stop_call 0))
        before_sale).0
      ≡ ok tt)
    × KittySale coins 2 0 sold_auction before_sale after_sale
unfolding is_kitty_owner run_calls Auctions.dispatch archer_in_zoo.Auction.Calls.participate_auction
    archer_in_zoo.Auction.Passive.start_auctions_passive archer_in_zoo.Auction.Calls.add_item
    archer_in_zoo.Kitties.Items.is_item_owner archer_in_zoo.Auction.Calls.create_auction
    archer_in_zoo.Kitties.History.dispatch archer_in_zoo.Kitties.create
    archer_in_zoo.LinkedItem.append
stop_call-KittySale_example =
    stop_call-KittySale coins seals some_system some_hash existential_deposit maximum
      coins-CurrencyLaws coins.free_balance coins-CurrencyProgress sale_calls (λ q. 1000) some_aura
      (some 1) 0 2 100 0 sold_auction refl refl refl refl refl refl
      (record { covered = omega arith; alive = omega arith; fits = omega arith }) refl
