-- ===== src/Auction/Deliveries/Calls.antt =====
-- The items over the calls of auction/mod.rs.
use archer_in_zoo.Prelude.{
  ℕ, ◌≡◌, refl, ap, true, false, Bool-cases, none, some, Option-cases, inl, inr, List, [], ◌∷◌,
  contains, ◌==◌, arith,
}
use archer_in_zoo.Outcome.{
  and_then-cases, pure, modify, ◌>>◌, should_be_non_stopped, should_be_pending_start,
}
use archer_in_zoo.System.{System}
use archer_in_zoo.Traits.{ItemTransfer}
use archer_in_zoo.Auction.Types.{Auction, Store, stopped, pending_start, same_status, active_vec}
use archer_in_zoo.Auction.Currency.{Currency, World, on_store, modify_store}
use archer_in_zoo.Auction.Store.{
  do_create_auction, is_auctions_with_status, has_status, change_auction_status,
  remove_all_from_set,
}
use archer_in_zoo.Auction.Calls.{
  settle_if_started, do_stop_auction, create_auction, add_item, setup_moments, pause_auction,
  resume_auction, stop_auction, participate_auction,
}
use archer_in_zoo.Auction.Passive.{Keys, Aura, start_auctions_passive, stop_auctions_passive}
use archer_in_zoo.Auction.Dispatch.{
  Call, create_call, add_item_call, setup_call, pause_call, resume_call, stop_call,
  participate_call, start_passive_call, stop_passive_call, dispatch,
}
use archer_in_zoo.Auction.Steps.Ensured.{ensure_auction-cases, admitted-cases}
use archer_in_zoo.Auction.Deliveries.{Deliveries, nothing, Earlier, same_items}
use archer_in_zoo.Auction.Deliveries.Settling.{settle_if_started-Deliveries, stop_each-Deliveries}
use archer_in_zoo.Auction.Deliveries.Kept.{
  then-KeepsItems, signed-KeepsItems, do_add_item-KeepsItems, participate-KeepsItems,
}

itself :
    (i : ℕ) (a : Auction) (s : Store)
    → s.auctions i ≡ some a
    → same_status a.status stopped ≡ false
    → Earlier s i a
itself i a s found live = record {
  auction = a;
  found = found;
  live = live;
  owner = refl;
  item = refl;
  latest_participate = refl;
}

-- The auctions of a list of auctions that are not stopped.
live_of :
    (ids : List ℕ) (i : ℕ) (a : Auction) (s : Store)
    → is_auctions_with_status ids stopped true s ≡ true
    → contains i ids ≡ true
    → s.auctions i ≡ some a
    → same_status a.status stopped ≡ false
unfolding is_auctions_with_status has_status
live_of [] i a s h listed found = cc
live_of (j ∷ js) i a s h listed found = elim (Bool-cases (i == j)) [
  | inl same ↦
      let e : j ≡ i = ground arith in
      let here : s.auctions j ≡ some a = rw e found in ground (arith, h, here)
  | inr apart ↦ live_of js i a s (ground (arith, h)) (ground (arith, listed, apart)) found
]

module _ {L I : Type 0} (c : Currency L) (t : ItemTransfer I) where
  do_stop_auction-Deliveries :
      (owner i : ℕ) (w : World L I)
      → Deliveries t w.store w.items (do_stop_auction c t owner i w).1.items
  unfolding do_stop_auction
  do_stop_auction-Deliveries owner i w = elim (ensure_auction-cases i none (some owner) w.store) [
    | inl (e, bad) ↦ rw bad nothing
    | inr (a, g) ↦ elim (Bool-cases (same_status a.status stopped)) [
      | inl over ↦ rw (g.result, over) nothing
      | inr live ↦
          let settled =
            settle_if_started-Deliveries c t w.store i a w (itself i a w.store g.found live) in
          rw (g.result, live)
            (and_then-cases (λ x. Deliveries t w.store w.items x.1.items)
              (settle_if_started c t a w)
              (λ _.
                modify (modify_store (change_auction_status i a.status stopped))
                >> modify (modify_store (remove_all_from_set active_vec (i ∷ []))))
              (λ e w1 q. rw (ap (λ x. x.1) q) at settled) λ _ w1 q. rw (ap (λ x. x.1) q) at settled)
    ]
  ]

  stop_auction-Deliveries :
      {Origin : Type 0} (sys : System Origin) (o : Origin) (i : ℕ) (w : World L I)
      → Deliveries t w.store w.items (stop_auction c t sys o i w).1.items
  unfolding stop_auction
  stop_auction-Deliveries sys o i w = elim (Option-cases (sys.ensure_signed o)) [
    | inl none_signed ↦ rw none_signed nothing
    | inr (sender, signed_by) ↦
        let stop = do_stop_auction-Deliveries sender i w in
        rw signed_by (
          and_then-cases (λ x. Deliveries t w.store w.items x.1.items)
            (do_stop_auction c t sender i w) (λ _. pure tt) (λ e w1 q. rw (ap (λ x. x.1) q) at stop)
            λ _ w1 q. rw (ap (λ x. x.1) q) at stop)
  ]

  stop_auctions_passive-Deliveries :
      {Signature Origin : Type 0} (k : Keys Signature) (sys : System Origin) (aura : Aura)
      (o : Origin) (ids : List ℕ) (sig : Signature) (w : World L I)
      → Deliveries t w.store w.items (stop_auctions_passive c t k sys aura o ids sig w).1.items
  unfolding stop_auctions_passive
  stop_auctions_passive-Deliveries k sys aura o ids sig w =
      elim (admitted-cases k sys aura o ids sig stopped true should_be_non_stopped w) [
        | inl (e, bad) ↦ rw bad nothing
        | inr g ↦ rw g.result (
            stop_each-Deliveries c t w.store ids w λ i listed a found.
              itself i a w.store found (live_of ids i a w.store g.has_status listed found))
      ]

  -- What a call does to the items are transfers from the owners of stored auctions that are not
  -- stopped to their latest bidders.
  pub dispatch-Deliveries :
      {Signature Origin : Type 0} (k : Keys Signature) (sys : System Origin) (aura : Aura)
      (o : Origin) (call : Call Signature) (w : World L I)
      → Deliveries t w.store w.items (dispatch c t k sys aura o call w).1.items
  unfolding dispatch create_auction add_item setup_moments pause_auction resume_auction
      participate_auction start_auctions_passive
  dispatch-Deliveries k sys aura o (create_call p m u) w = same_items (
      signed-KeepsItems sys o _
        (λ sender.
          then-KeepsItems (on_store (do_create_auction sender p m u)) _ (λ w'. refl) (λ _ w'. refl))
        w)
  dispatch-Deliveries k sys aura o (add_item_call i item) w =
      same_items (signed-KeepsItems sys o _ (λ sender. do_add_item-KeepsItems c t sender i item) w)
  dispatch-Deliveries k sys aura o (setup_call i b e p) w =
      same_items (signed-KeepsItems sys o _ (λ sender w'. refl) w)
  dispatch-Deliveries k sys aura o (pause_call i) w =
      same_items (signed-KeepsItems sys o _ (λ sender w'. refl) w)
  dispatch-Deliveries k sys aura o (resume_call i) w =
      same_items (signed-KeepsItems sys o _ (λ sender w'. refl) w)
  dispatch-Deliveries k sys aura o (stop_call i) w = stop_auction-Deliveries sys o i w
  dispatch-Deliveries k sys aura o (participate_call i price) w =
      same_items (signed-KeepsItems sys o _ (λ p. participate-KeepsItems c t aura.last p i price) w)
  dispatch-Deliveries k sys aura o (start_passive_call is sig) w =
      elim (admitted-cases k sys aura o is sig pending_start false should_be_pending_start w) [
        | inl (e, bad) ↦ rw bad nothing
        | inr g ↦ rw g.result nothing
      ]
  dispatch-Deliveries k sys aura o (stop_passive_call is sig) w =
      stop_auctions_passive-Deliveries k sys aura o is sig w
