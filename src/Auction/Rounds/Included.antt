-- ===== src/Auction/Rounds/Included.antt =====
-- A round: the worker submits two transactions, and a block takes both in.
use archer_in_zoo.Prelude.{ℕ, ◌≡◌, not, ◌&&◌, List, [], contains}
use archer_in_zoo.Outcome.{ok, Action}
use archer_in_zoo.System.{System}
use archer_in_zoo.Traits.{ItemTransfer}
use archer_in_zoo.Auction.Currency.{Currency, World}
use archer_in_zoo.Auction.Passive.{Keys, Aura, start_auctions_passive, stop_auctions_passive}
use archer_in_zoo.Auction.Offchain.{
  UnsignedCall, start_call, stop_call, starting_auction_ids, stoping_auction_ids,
}
use archer_in_zoo.Auction.WellFormed.{WellFormed}
use archer_in_zoo.Auction.Rounds.Settled.{after_round}

module _ {L I Signature Origin : Type 0} (c : Currency L) (t : ItemTransfer I) (k : Keys Signature)
    (sys : System Origin) (aura : Aura) (o : Origin) where
  -- The call of a transaction, in the block.
  abbrev pub include : UnsignedCall Signature → Action (World L I) (Unit {0})
  include (start_call ids sig) = start_auctions_passive c t k sys aura o ids sig
  include (stop_call ids sig) = stop_auctions_passive c t k sys aura o ids sig

  module _ (sig sig' : Signature) (w : World L I) where
    abbrev starting : List ℕ
    starting = starting_auction_ids aura.last w.store

    abbrev stoping : List ℕ
    stoping = stoping_auction_ids aura.last w.store

    abbrev w1 : World L I
    w1 = (start_auctions_passive c t k sys aura o starting sig w).1

    abbrev w2 : World L I
    w2 = (stop_auctions_passive c t k sys aura o stoping sig' w1).1

  -- What a round does: both calls succeed, they stop what the worker found due to stop and make active
  -- what else it found due to start, and no other auction changes. The two working lists lose the ids
  -- that were started or stopped and gain none, so an auction that was started is in the list of active
  -- auctions only if it was there before, and the worker finds nothing in the lists at that time.
  pub record RoundDone (first second : UnsignedCall Signature) (w : World L I) : Type 0 where
    pub first_ok : (include first w).0 ≡ ok tt
    pub second_ok : (include second (include first w).1).0 ≡ ok tt
    pub auctions :
        (i : ℕ)
        → (include second (include first w).1).1.store.auctions i
          ≡ after_round
              (starting_auction_ids aura.last w.store)
              (stoping_auction_ids aura.last w.store)
              i
              (w.store.auctions i)
    pub pending :
        (i : ℕ)
        → contains i (include second (include first w).1).1.store.pending_auctions ≡ (
            contains i w.store.pending_auctions
            && not (contains i (starting_auction_ids aura.last w.store)))
    pub active :
        (i : ℕ)
        → contains i (include second (include first w).1).1.store.active_auctions ≡ (
            contains i w.store.active_auctions
            && not (contains i (stoping_auction_ids aura.last w.store)))
    pub none_starts :
        starting_auction_ids aura.last (include second (include first w).1).1.store ≡ []
    pub none_stops : stoping_auction_ids aura.last (include second (include first w).1).1.store ≡ []
