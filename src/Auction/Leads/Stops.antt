-- ===== src/Auction/Leads/Stops.antt =====
-- Stops leave the bids on record and the latest bidders, whether or not they succeed.
use archer_in_zoo.Prelude.{
  ℕ, ◌≡◌, refl, ap, true, none, some, List, [], ◌∷◌, arith, Bool-cases, Option-cases, inl, inr,
  ◌==◌,
}
use archer_in_zoo.Outcome.{and_then-cases, should_be_non_stopped}
use archer_in_zoo.System.{System}
use archer_in_zoo.Traits.{ItemTransfer}
use archer_in_zoo.Auction.Types.{Auction, Store, AuctionStatus, stopped, active_vec, same_status}
use archer_in_zoo.Auction.Currency.{Currency, World}
use archer_in_zoo.Auction.Store.{change_auction_status, remove_all_from_set}
use archer_in_zoo.Auction.Calls.{settle_if_started, do_stop_auction}
use archer_in_zoo.Auction.Passive.{Keys, Aura, stop_one, stop_each, stop_auctions_passive}
use archer_in_zoo.Auction.Settlement.Lowered.{settle_if_started-bids}
use archer_in_zoo.Auction.Steps.Ensured.{ensure_auction-cases, admitted-cases}
use archer_in_zoo.Auction.Steps.Funds.{settle_if_started-OnlyFunds}
use archer_in_zoo.Auction.Leads.{lead, SameLeads, SameLeads-refl, SameLeads-trans}
use archer_in_zoo.Auction.Leads.Quiet.{lead-with_status}

change-SameLeads :
    (i : ℕ) (old new : AuctionStatus) (s : Store) → SameLeads s (change_auction_status i old new s)
unfolding change_auction_status
change-SameLeads i old new s = record {
  bids = refl;
  leads = λ j. elim (Bool-cases (j == i)) [
    | inl same ↦ let e : j ≡ i = ground arith in rw (same, e) (lead-with_status new (s.auctions i))
    | inr apart ↦ rw apart refl
  ];
}

remove-SameLeads : (ids : List ℕ) (s : Store) → SameLeads s (remove_all_from_set active_vec ids s)
unfolding remove_all_from_set
remove-SameLeads ids s = record { bids = refl; leads = λ i. refl }

module _ {L I : Type 0} (c : Currency L) (t : ItemTransfer I) where
  settle-SameLeads :
      (a : Auction) (w : World L I) → SameLeads w.store (settle_if_started c t a w).1.store
  settle-SameLeads a w = record {
    bids = settle_if_started-bids c t a w;
    leads = λ i. ap (λ s. lead (s.auctions i)) (settle_if_started-OnlyFunds c t a w);
  }

  stop_one-SameLeads : (i : ℕ) (w : World L I) → SameLeads w.store (stop_one c t i w).store
  unfolding stop_one
  stop_one-SameLeads i w = elim (Option-cases (w.store.auctions i)) [
    | inl missing ↦ rw (missing, stop_one) (SameLeads-refl w.store)
    | inr (a, found) ↦
        rw (found, stop_one)
          (SameLeads-trans (settle-SameLeads a w)
            (change-SameLeads i a.status stopped (settle_if_started c t a w).1.store))
  ]

  stop_each-SameLeads :
      (ids : List ℕ) (w : World L I) → SameLeads w.store (stop_each c t ids w).store
  unfolding stop_each
  stop_each-SameLeads [] w = SameLeads-refl w.store
  stop_each-SameLeads (i ∷ is) w =
      SameLeads-trans (stop_one-SameLeads i w) (stop_each-SameLeads is (stop_one c t i w))

  pub stop_auctions_passive-SameLeads :
      {Signature Origin : Type 0} (k : Keys Signature) (sys : System Origin) (aura : Aura)
      (o : Origin) (ids : List ℕ) (sig : Signature) (w : World L I)
      → SameLeads w.store (stop_auctions_passive c t k sys aura o ids sig w).1.store
  unfolding stop_auctions_passive
  stop_auctions_passive-SameLeads k sys aura o ids sig w =
      elim (admitted-cases k sys aura o ids sig stopped true should_be_non_stopped w) [
        | inl (e, bad) ↦ rw bad (SameLeads-refl w.store)
        | inr g ↦ rw g.result (
            SameLeads-trans (stop_each-SameLeads ids w)
              (remove-SameLeads ids (stop_each c t ids w).store))
      ]

  pub do_stop_auction-SameLeads :
      (owner i : ℕ) (w : World L I) → SameLeads w.store (do_stop_auction c t owner i w).1.store
  unfolding do_stop_auction
  do_stop_auction-SameLeads owner i w = elim (ensure_auction-cases i none (some owner) w.store) [
    | inl (e, bad) ↦ rw bad (SameLeads-refl w.store)
    | inr (a, g) ↦ elim (Bool-cases (same_status a.status stopped)) [
      | inl over ↦ rw (g.result, over) (SameLeads-refl w.store)
      | inr live ↦
          let settled = settle-SameLeads a w in
          rw (g.result, live)
            (and_then-cases (λ x. SameLeads w.store x.1.store) (settle_if_started c t a w) _
              (λ e w1 r. rw (ap (λ x. x.1) r) at settled)
              λ _ w1 r.
                let first : SameLeads w.store w1.store = rw (ap (λ x. x.1) r) at settled in
                SameLeads-trans first (
                  SameLeads-trans (change-SameLeads i a.status stopped w1.store) (
                    remove-SameLeads (i ∷ []) (change_auction_status i a.status stopped w1.store))))
    ]
  ]
