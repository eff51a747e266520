-- ===== src/Auction/Accounts/Stoppable.antt =====
-- Stopping an auction after a history of calls.
use archer_in_zoo.Prelude.{ℕ, ◌≡◌, true, false, none, some, List, ◌⊎◌, not, ap, refl}
use archer_in_zoo.Outcome.{ok}
use archer_in_zoo.System.{System}
use archer_in_zoo.Traits.{ItemTransfer}
use archer_in_zoo.Auction.Types.{Auction, stopped, same_status}
use archer_in_zoo.Auction.Currency.{Currency, World}
use archer_in_zoo.Auction.Calls.{do_stop_auction}
use archer_in_zoo.Auction.Passive.{Keys, Aura}
use archer_in_zoo.Auction.Dispatch.{Call, run}
use archer_in_zoo.Auction.Settlement.Unsold.{do_stop_auction-ok}
use archer_in_zoo.Auction.Accounts.{Accounted}
use archer_in_zoo.Auction.Accounts.Stops.{all_covered_from, live-is_covered}
use archer_in_zoo.Auction.Accounts.Histories.{all_careful, run-Accounted}

module _ {L I Signature Origin : Type 0} (c : Currency L) (t : ItemTransfer I) (k : Keys Signature)
    (sys : System Origin) where
  -- After a history of careful calls from a storage whose locks are the sums of the bids, the owner
  -- of an auction that is not stopped and has no item or no bid can stop it.
  pub do_stop_auction_after :
      (calls : List (Aura × Origin × Call Signature × (L × I → L × I))) (w : World L I) (i : ℕ)
      → (a : Auction) → all_careful c t k sys calls w ≡ true
      → Accounted w.store
      → (run c t k sys calls w).store.auctions i ≡ some a
      → same_status a.status stopped ≡ false
      → (a.item ≡ none) ⊎ (a.latest_participate ≡ none)
      → (do_stop_auction c t a.owner i (run c t k sys calls w)).0 ≡ ok tt
  do_stop_auction_after calls w i a careful start found live unsold =
      let w' = run c t k sys calls w in
      let h = run-Accounted c t k sys calls w careful start in
      do_stop_auction-ok c t a.owner i a w' found refl live unsold (h.distinct a.id) (
        all_covered_from a.id _ w'.store
          λ r. rw (h.well.ids i a found) (live-is_covered i r a w'.store h found (ap not live)))
