-- ===== src/Auction/Tests/Mocks.antt =====
-- The item module of auction/mocks.rs, and the tests of auction/tests.rs on it.
use archer_in_zoo.Prelude.{ℕ, ◌+◌, ◌≡◌, refl, true, none, some}
use archer_in_zoo.Outcome.{ok}
use archer_in_zoo.Traits.{ItemTransfer}
use archer_in_zoo.Auction.Currency.{World}
use archer_in_zoo.Auction.Calls.{create_auction}
use archer_in_zoo.Auction.Dispatch.{genesis}
use archer_in_zoo.Auction.Tests.{Balances, coins, some_system}

-- It has no state: everybody owns every item, and a transfer does nothing.
abbrev pub some_item_module : ItemTransfer (Unit {0})
some_item_module = record {
  is_item_owner = λ who item_id items. true;
  transfer_item = λ source dest item_id items. (ok tt, items);
}

abbrev new_test_ext : World Balances (Unit {0})
new_test_ext = genesis (λ q. 0) tt

abbrev pub next_block : (block_number : ℕ) → ℕ
next_block now = now + 1

unfoldable pub ItWorksForCreateAuction : Type 0
ItWorksForCreateAuction =
    let (result, w) =
      create_auction coins some_item_module some_system (some 1) 100 1 none new_test_ext in
    (result ≡ ok tt) × (w.store.next_auction_id ≡ 1)

create_auction_test : ItWorksForCreateAuction
unfolding ItWorksForCreateAuction create_auction
create_auction_test = (refl, refl)
