-- ===== src/Auction/Leads/Histories.antt =====
-- The highest bidders over histories of calls.
use archer_in_zoo.Prelude.{ℕ, ◌≡◌, refl, ap, Bool, true, Option-cases, inl, inr}
use archer_in_zoo.Outcome.{Result, ok, err, and_then, pure}
use archer_in_zoo.System.{System}
use archer_in_zoo.Traits.{ItemTransfer}
use archer_in_zoo.Auction.Types.{Store}
use archer_in_zoo.Auction.Currency.{Currency, World}
use archer_in_zoo.Auction.Calls.{participate_auction, stop_auction, do_stop_auction}
use archer_in_zoo.Auction.Passive.{Keys, Aura}
use archer_in_zoo.Auction.Dispatch.{
  Call, create_call, add_item_call, setup_call, pause_call, resume_call, stop_call,
  participate_call, start_passive_call, stop_passive_call, dispatch,
}
use archer_in_zoo.Auction.WellFormed.{WellFormed}
use archer_in_zoo.Auction.Steps.{Calm}
use archer_in_zoo.Auction.Steps.Signed.{
  create_auction-Calm, add_item-Calm, setup_moments-Calm, pause_auction-Calm, resume_auction-Calm,
}
use archer_in_zoo.Auction.Steps.Unsigned.{start_auctions_passive-Calm}
use archer_in_zoo.Auction.Leads.{Leads, SameLeads-Leads}
use archer_in_zoo.Auction.Leads.Quiet.{Calm-SameLeads}
use archer_in_zoo.Auction.Leads.Stops.{do_stop_auction-SameLeads, stop_auctions_passive-SameLeads}
use archer_in_zoo.Auction.Leads.Bids.{leaves_room, participate-Leads}

pure_state : {S : Type 0} (x : Result (Unit {0}) × S) → (and_then x (λ _. pure tt)).1 ≡ x.1
pure_state (ok a, s) = refl
pure_state (err e, s) = refl

Calm-Leads : {s s' : Store} → Calm s s' → WellFormed s → Leads s → Leads s'
Calm-Leads c well h = SameLeads-Leads (Calm-SameLeads c well).0 h

module _ {L I Signature Origin : Type 0} (c : Currency L) (t : ItemTransfer I) (k : Keys Signature)
    (sys : System Origin) where
  -- A bid is a balance with its auction's minimum step added.
  abbrev pub is_modest : Call Signature → World L I → Bool
  is_modest (participate_call i price) w = leaves_room price (w.store.auctions i)
  is_modest (create_call p m u) w = true
  is_modest (add_item_call i item) w = true
  is_modest (setup_call i b e p) w = true
  is_modest (pause_call i) w = true
  is_modest (resume_call i) w = true
  is_modest (stop_call i) w = true
  is_modest (start_passive_call is sig) w = true
  is_modest (stop_passive_call is sig) w = true

  stop_auction-Leads :
      (o : Origin) (i : ℕ) (w : World L I)
      → Leads w.store
      → Leads (stop_auction c t sys o i w).1.store
  unfolding stop_auction
  stop_auction-Leads o i w h = elim (Option-cases (sys.ensure_signed o)) [
    | inl none_signed ↦ rw none_signed h
    | inr (owner, signed) ↦
        let kept = ap (λ (x : World L I). x.store) (pure_state (do_stop_auction c t owner i w)) in
        rw (signed, kept) (SameLeads-Leads (do_stop_auction-SameLeads c t owner i w) h)
  ]

  participate_auction-Leads :
      (aura : Aura) (o : Origin) (i price : ℕ) (w : World L I)
      → WellFormed w.store
      → leaves_room price (w.store.auctions i) ≡ true
      → Leads w.store
      → Leads (participate_auction c t sys o aura.last i price w).1.store
  unfolding participate_auction
  participate_auction-Leads aura o i price w well e h = elim (Option-cases (sys.ensure_signed o)) [
    | inl none_signed ↦ rw none_signed h
    | inr (p, signed) ↦ rw signed (participate-Leads c t aura.last p i price w well e h)
  ]

  pub dispatch-Leads :
      (aura : Aura) (o : Origin) (call : Call Signature) (w : World L I)
      → is_modest call w ≡ true
      → WellFormed w.store
      → Leads w.store
      → Leads (dispatch c t k sys aura o call w).1.store
  unfolding dispatch
  dispatch-Leads aura o (create_call p m u) w e well h =
      Calm-Leads (create_auction-Calm c t sys o p m u w) well h
  dispatch-Leads aura o (add_item_call i item) w e well h =
      Calm-Leads (add_item-Calm c t sys o i item w) well h
  dispatch-Leads aura o (setup_call i b e' p) w e well h =
      Calm-Leads (setup_moments-Calm c t sys o i b e' p w) well h
  dispatch-Leads aura o (pause_call i) w e well h =
      Calm-Leads (pause_auction-Calm c t sys o i w) well h
  dispatch-Leads aura o (resume_call i) w e well h =
      Calm-Leads (resume_auction-Calm c t sys o i w) well h
  dispatch-Leads aura o (stop_call i) w e well h = stop_auction-Leads o i w h
  dispatch-Leads aura o (participate_call i price) w e well h =
      participate_auction-Leads aura o i price w well e h
  dispatch-Leads aura o (start_passive_call is sig) w e well h =
      Calm-Leads (start_auctions_passive-Calm c t k sys aura o is sig w) well h
  dispatch-Leads aura o (stop_passive_call is sig) w e well h =
      SameLeads-Leads (stop_auctions_passive-SameLeads c t k sys aura o is sig w) h
