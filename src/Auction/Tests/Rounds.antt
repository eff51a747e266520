-- ===== src/Auction/Tests/Rounds.antt =====
-- A round of the worker with one auction to stop and one to start.
use archer_in_zoo.Prelude.{none, some, update, [], ◌∷◌}
use archer_in_zoo.Auction.Types.{Auction, Store, pending_start}
use archer_in_zoo.Auction.Currency.{World}
use archer_in_zoo.Auction.WellFormed.{WellFormed}
use archer_in_zoo.Auction.Tests.{Balances, some_auction, some_store, some_world}

abbrev waiting_auction : Auction
waiting_auction = record some_auction {
  id = 1;
  item = none;
  latest_participate = none;
  status = pending_start;
}

abbrev two_auctions : Store
two_auctions = record some_store {
  next_auction_id = 2;
  auctions = update some_store.auctions 1 (some waiting_auction);
  pending_auctions = 1 ∷ [];
}

abbrev two_world : World Balances archer_in_zoo.Kitties.State
two_world = record some_world { store = two_auctions }
