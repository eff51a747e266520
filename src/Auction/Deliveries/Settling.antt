-- ===== src/Auction/Deliveries/Settling.antt =====
-- The items that settlements hand over.
use archer_in_zoo.Prelude.{
  ℕ, ◌≡◌, ◌⊎◌, inl, inr, refl, sym, Option, if◌then◌else◌, ap, ◌∙◌, true, false, some, none, List,
  [], ◌∷◌, contains, Option-cases, Bool-cases, ◌==◌, arith, get_or, Bool,
}
use archer_in_zoo.Outcome.{Action, and_then-cases, modify, ◌>>◌}
use archer_in_zoo.Traits.{ItemTransfer}
use archer_in_zoo.Auction.Types.{AuctionStatus, Auction, Store, stopped, pending_start, same_status}
use archer_in_zoo.Auction.Currency.{Currency, World, on_ledger, on_items, modify_ledger}
use archer_in_zoo.Auction.Store.{with_status}
use archer_in_zoo.Auction.WellFormed.{some_eq}
use archer_in_zoo.Auction.Funds.{
  unlock_all, bid_of, holding, calc_auctino_fee, settle_winner, handle_winner, do_settle_auction,
}
use archer_in_zoo.Auction.Calls.{settle_if_started}
use archer_in_zoo.Auction.Passive.{stop_one, stop_each}
use archer_in_zoo.Auction.Settlement.Locks.{unlock_all-Kept}
use archer_in_zoo.Auction.Sweeps.{stop_one-auctions}
use archer_in_zoo.Auction.Deliveries.{
  Sale, Deliveries, nothing, Earlier, one_delivered, Deliveries-trans, same_items,
}

module _ {L I : Type 0} (c : Currency L) (t : ItemTransfer I) where
  -- The items of a world are those of another, or those after a transfer.
  abbrev MaybeMoved : (owner winner item : ℕ) → World L I → World L I → Type 0
  MaybeMoved owner winner item w w' =
      (w'.items ≡ w.items) ⊎ (w'.items ≡ (t.transfer_item owner winner item w.items).1)

  holding-items :
      (n : ℕ) (m : Action (World L I) (Unit {0})) (w : World L I)
      → (holding c n m w).1.items ≡ (m w).1.items
  holding-items n m w = ground arith

  pay-MaybeMoved :
      (owner winner item value : ℕ) (start w : World L I)
      → w.items ≡ start.items
      → MaybeMoved owner winner item start
          ((on_ledger (c.transfer winner owner value)
              >> on_items (t.transfer_item owner winner item))
            w).1
  pay-MaybeMoved owner winner item value start w same =
      and_then-cases (λ x. MaybeMoved owner winner item start x.1)
        (on_ledger (c.transfer winner owner value) w)
        (λ _. on_items (t.transfer_item owner winner item))
        (λ e w1 q. inl (sym (ap (λ x. x.1.items) q) ∙ same))
        λ _ w1 q.
          inr
            (ap (λ i. (t.transfer_item owner winner item i).1) (sym (ap (λ x. x.1.items) q) ∙ same))

  settle_winner-MaybeMoved :
      (owner winner item bid : ℕ) (w : World L I)
      → MaybeMoved owner winner item w (settle_winner c t owner winner item bid w).1
  unfolding settle_winner
  settle_winner-MaybeMoved owner winner item bid w =
      let value = (calc_auctino_fee bid).0 in
      let pay : Action (World L I) (Unit {0}) =
        on_ledger (c.transfer winner owner value) >> on_items (t.transfer_item owner winner item) in
      and_then-cases (λ x. MaybeMoved owner winner item w x.1)
        (on_ledger (c.withdraw winner (calc_auctino_fee bid).1) w)
        (λ imbalance. holding c imbalance pay >> modify (modify_ledger (c.on_unbalanced imbalance)))
        (λ e w1 q. inl (sym (ap (λ x. x.1.items) q)))
        λ n w1 q.
          let same : w1.items ≡ w.items = sym (ap (λ x. x.1.items) q) in
          let moved : MaybeMoved owner winner item w (holding c n pay w1).1 =
            rw (holding-items n pay w1) (pay-MaybeMoved owner winner item value w w1 same) in
          and_then-cases (λ x. MaybeMoved owner winner item w x.1) (holding c n pay w1)
            (λ _. modify (modify_ledger (c.on_unbalanced n)))
            (λ e w2 q'. rw (ap (λ x. x.1) q') at moved) λ _ w2 q'. rw (ap (λ x. x.1) q') at moved

  module _ (s : Store) where
    handle_winner-Deliveries :
        (i : ℕ) (a : Auction) (w : World L I)
        → Earlier s i a
        → Deliveries t s w.items (handle_winner c t a w).1.items
    handle_winner-Deliveries i a w e = elim (Option-cases a.item) [
      | inl unset ↦ rw unset nothing
      | inr (item, has_item) ↦ elim (Option-cases a.latest_participate) [
        | inl no_bid ↦ rw (has_item, no_bid) nothing
        | inr ((winner, moment), has_bid) ↦
            let sale : Sale s = record {
              auction_id = i;
              auction = e.auction;
              item = item;
              winner = winner;
              moment = moment;
              found = e.found;
              live = e.live;
              has_item = e.item ∙ has_item;
              has_bid = e.latest_participate ∙ has_bid;
            } in
            rw (has_item, has_bid)
              (elim (settle_winner-MaybeMoved a.owner winner item (bid_of a.id winner w.store) w) [
                | inl same ↦ same_items same
                | inr moved ↦ rw (moved, ← e.owner) (one_delivered sale w.items)
              ])
      ]
    ]

    do_settle_auction-Deliveries :
        (i : ℕ) (a : Auction) (w : World L I)
        → Earlier s i a
        → Deliveries t s w.items (do_settle_auction c t a w).1.items
    unfolding do_settle_auction
    do_settle_auction-Deliveries i a w e =
        let kept =
          (unlock_all-Kept c a.id (get_or (w.store.auction_participants a.id) []) w).items in
        and_then-cases (λ x. Deliveries t s w.items x.1.items)
          (unlock_all c a.id (get_or (w.store.auction_participants a.id) []) w)
          (λ _. handle_winner c t a) (λ e' w1 q. same_items (rw (ap (λ x. x.1) q) at kept))
          λ _ w1 q. rw (← (rw (ap (λ x. x.1) q) at kept)) (handle_winner-Deliveries i a w1 e)

    pub settle_if_started-Deliveries :
        (i : ℕ) (a : Auction) (w : World L I)
        → Earlier s i a
        → Deliveries t s w.items (settle_if_started c t a w).1.items
    unfolding settle_if_started
    settle_if_started-Deliveries i a w e = elim (Bool-cases (same_status a.status pending_start)) [
      | inl early ↦ rw (early, settle_if_started) nothing
      | inr started ↦ rw (started, settle_if_started) (do_settle_auction-Deliveries i a w e)
    ]

    -- Each auction of the list is in the earlier store.
    abbrev pub Known : List ℕ → World L I → Type 0
    Known ids w =
        (i : ℕ)
        → contains i ids ≡ true
        → (a : Auction) → w.store.auctions i ≡ some a
        → Earlier s i a

    stop_one-Deliveries :
        (i : ℕ) (w : World L I)
        → ((a : Auction) → w.store.auctions i ≡ some a → Earlier s i a)
        → Deliveries t s w.items (stop_one c t i w).items
    unfolding stop_one
    stop_one-Deliveries i w known = elim (Option-cases (w.store.auctions i)) [
      | inl missing ↦ rw (missing, stop_one) nothing
      | inr (a, found) ↦ rw (found, stop_one) (settle_if_started-Deliveries i a w (known a found))
    ]

    status-Earlier :
        (i : ℕ) (st : AuctionStatus) (b : Bool) (old : Option Auction) (a : Auction)
        → ((a' : Auction) → old ≡ some a' → Earlier s i a')
        → (if b then with_status st old else old) ≡ some a
        → Earlier s i a
    status-Earlier i st true none a known e = cc
    status-Earlier i st false none a known e = cc
    status-Earlier i st true (some old) a known e =
        let before = known old refl in
        rw (← some_eq e) (record {
          auction = before.auction;
          found = before.found;
          live = before.live;
          owner = before.owner;
          item = before.item;
          latest_participate = before.latest_participate;
        })
    status-Earlier i st false old a known e = known a e

    stop_one-Known :
        (ids : List ℕ) (i : ℕ) (w : World L I) → Known ids w → Known ids (stop_one c t i w)
    stop_one-Known ids i w known j listed a found =
        status-Earlier j stopped (j == i) (w.store.auctions j) a (known j listed)
          (sym (stop_one-auctions c t i j w) ∙ found)

    pub stop_each-Deliveries :
        (ids : List ℕ) (w : World L I)
        → Known ids w
        → Deliveries t s w.items (stop_each c t ids w).items
    unfolding stop_each
    stop_each-Deliveries [] w known = nothing
    stop_each-Deliveries (i ∷ is) w known =
        let first : contains i (i ∷ is) ≡ true = ground arith in
        Deliveries-trans (stop_one-Deliveries i w (known i first)) (
          stop_each-Deliveries is (stop_one c t i w)
            (stop_one-Known is i w λ j listed. known j (ground (arith, listed))))
