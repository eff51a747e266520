-- ===== src/Auction/Rounds/Effects.antt =====
-- What an unsigned call that succeeds leaves of the storage that the worker reads.
use archer_in_zoo.Prelude.{
  ℕ, ◌≡◌, refl, ap, ◌∙◌, true, false, not, ◌&&◌, List, [], ◌∷◌, contains, Option-cases, inl, inr,
}
use archer_in_zoo.Outcome.{ok, should_be_pending_start, should_be_non_stopped}
use archer_in_zoo.System.{System}
use archer_in_zoo.Traits.{ItemTransfer}
use archer_in_zoo.Auction.Types.{
  Auction, Store, AuctionStatus, pending_start, active, stopped, pending_vec, active_vec,
}
use archer_in_zoo.Auction.Currency.{Currency, World}
use archer_in_zoo.Auction.Store.{change_auction_status, remove_all_from_set, add_all_to_set}
use archer_in_zoo.Auction.Calls.{settle_if_started}
use archer_in_zoo.Auction.Passive.{
  Keys, Aura, start_each, stop_one, stop_each, start_auctions_passive, stop_auctions_passive,
}
use archer_in_zoo.Auction.Queues.{contains-add_all_to_set, contains-remove_all_from_set}
use archer_in_zoo.Auction.Steps.Ensured.{admitted-cases}
use archer_in_zoo.Auction.Steps.Funds.{settle_if_started-OnlyFunds}
use archer_in_zoo.Auction.Settlement.Lowered.{settle_if_started-bids}

-- The bids and the two working lists.
pub record SameLists (s s' : Store) : Type 0 where
  pub bids : s'.auction_bids ≡ s.auction_bids
  pub pending : s'.pending_auctions ≡ s.pending_auctions
  pub active : s'.active_auctions ≡ s.active_auctions

change-SameLists :
    (i : ℕ) (old new : AuctionStatus) (s : Store) → SameLists s (change_auction_status i old new s)
unfolding change_auction_status
change-SameLists i old new s = record { bids = refl; pending = refl; active = refl }

SameLists-trans : {s t u : Store} → SameLists s t → SameLists t u → SameLists s u
SameLists-trans p q = record {
  bids = q.bids ∙ p.bids;
  pending = q.pending ∙ p.pending;
  active = q.active ∙ p.active;
}

start_each-SameLists : (ids : List ℕ) (s : Store) → SameLists s (start_each ids s)
unfolding start_each
start_each-SameLists [] s = record { bids = refl; pending = refl; active = refl }
start_each-SameLists (i ∷ is) s =
    SameLists-trans (change-SameLists i pending_start active s)
      (start_each-SameLists is (change_auction_status i pending_start active s))

module _ {L I : Type 0} (c : Currency L) (t : ItemTransfer I) where
  settle_if_started-SameLists :
      (a : Auction) (w : World L I) → SameLists w.store (settle_if_started c t a w).1.store
  settle_if_started-SameLists a w =
      let only = settle_if_started-OnlyFunds c t a w in
      record {
        bids = settle_if_started-bids c t a w;
        pending = ap (λ s. s.pending_auctions) only;
        active = ap (λ s. s.active_auctions) only;
      }

  stop_one-SameLists : (i : ℕ) (w : World L I) → SameLists w.store (stop_one c t i w).store
  unfolding stop_one
  stop_one-SameLists i w = elim (Option-cases (w.store.auctions i)) [
    | inl missing ↦ rw (missing, stop_one) (record { bids = refl; pending = refl; active = refl })
    | inr (a, found) ↦
        rw (found, stop_one)
          (SameLists-trans (settle_if_started-SameLists a w)
            (change-SameLists i a.status stopped (settle_if_started c t a w).1.store))
  ]

  stop_each-SameLists :
      (ids : List ℕ) (w : World L I) → SameLists w.store (stop_each c t ids w).store
  unfolding stop_each
  stop_each-SameLists [] w = record { bids = refl; pending = refl; active = refl }
  stop_each-SameLists (i ∷ is) w =
      SameLists-trans (stop_one-SameLists i w) (stop_each-SameLists is (stop_one c t i w))

  module _ {Signature Origin : Type 0} (k : Keys Signature) (sys : System Origin) (aura : Aura)
      (o : Origin) (ids : List ℕ) (sig : Signature) (w : World L I) where
    -- The ids leave the pending list, and do not enter the active one.
    pub start_auctions_passive-lists :
        (start_auctions_passive c t k sys aura o ids sig w).0 ≡ ok tt
        → (i : ℕ)
        → let s' = (start_auctions_passive c t k sys aura o ids sig w).1.store in
          (s'.auction_bids ≡ w.store.auction_bids)
          × (contains i s'.pending_auctions
              ≡ (contains i w.store.pending_auctions && not (contains i ids)))
          × (contains i s'.active_auctions ≡ contains i w.store.active_auctions)
    unfolding start_auctions_passive remove_all_from_set add_all_to_set
    start_auctions_passive-lists e i =
        elim (admitted-cases k sys aura o ids sig pending_start false should_be_pending_start w) [
          | inl (e', bad) ↦ let no = rw bad at e in cc
          | inr g ↦
              let h = start_each-SameLists ids w.store in
              let s1 = start_each ids w.store in
              rw g.result (
                h.bids,
                contains-remove_all_from_set pending_vec i ids s1
                    ∙ ap (λ l. contains i l && not (contains i ids)) h.pending,
                contains-add_all_to_set active_vec i ids (remove_all_from_set pending_vec ids s1)
                    ∙ ap (contains i) h.active,
              )
        ]

    pub stop_auctions_passive-lists :
        (stop_auctions_passive c t k sys aura o ids sig w).0 ≡ ok tt
        → (i : ℕ)
        → let s' = (stop_auctions_passive c t k sys aura o ids sig w).1.store in
          (s'.auction_bids ≡ w.store.auction_bids)
          × (contains i s'.pending_auctions ≡ contains i w.store.pending_auctions)
          × (contains i s'.active_auctions
              ≡ (contains i w.store.active_auctions && not (contains i ids)))
    unfolding stop_auctions_passive remove_all_from_set
    stop_auctions_passive-lists e i =
        elim (admitted-cases k sys aura o ids sig stopped true should_be_non_stopped w) [
          | inl (e', bad) ↦ let no = rw bad at e in cc
          | inr g ↦
              let h = stop_each-SameLists ids w in
              rw g.result (
                h.bids,
                ap (contains i) h.pending,
                contains-remove_all_from_set active_vec i ids (stop_each c t ids w).store
                    ∙ ap (λ l. contains i l && not (contains i ids)) h.active,
              )
        ]
