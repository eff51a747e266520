-- ===== src/Auction/Settlement/Sold.antt =====
-- A stop of an auction with an item and a latest bid, and whether its owner still has the item.
use archer_in_zoo.Prelude.{
  ℕ, ◌≡◌, refl, sym, ap, ◌∙◌, true, false, Bool-cases, none, some, [], ◌∷◌, ◌==◌, inl, inr, get_or,
}
use archer_in_zoo.Outcome.{ok, Action, and_then-ok, modify, ◌>>◌}
use archer_in_zoo.Traits.{ItemTransfer, Lawful}
use archer_in_zoo.Auction.Types.{Auction, Store, pending_start, stopped, same_status, active_vec}
use archer_in_zoo.Auction.Currency.{Currency, World, modify_store}
use archer_in_zoo.Auction.Store.{change_auction_status, remove_all_from_set}
use archer_in_zoo.Auction.Funds.{do_settle_auction}
use archer_in_zoo.Auction.Calls.{settle_if_started, do_stop_auction}
use archer_in_zoo.Auction.WellFormed.{WellFormed, some_eq}
use archer_in_zoo.Auction.Steps.Ensured.{ensure_auction-cases, same_status_iff}
use archer_in_zoo.Auction.Settlement.Locks.{unlock_all-Kept}
use archer_in_zoo.Auction.Settlement.Winner.{do_settle_auction-Settled, do_settle_auction-owner}

-- An auction with a bid has started.
pub bid-started :
    (i : ℕ) (a : Auction) (winner moment : ℕ) (s : Store)
    → WellFormed s
    → s.auctions i ≡ some a
    → a.latest_participate ≡ some (winner, moment)
    → same_status a.status pending_start ≡ false
bid-started i a winner moment s h found has_bid =
    elim (Bool-cases (same_status a.status pending_start)) [
      | inr started ↦ started
      | inl early ↦
          let no_bid = h.no_early_bid i a found (same_status_iff a.status pending_start early) in
          let no = sym has_bid ∙ no_bid in cc
    ]

module _ {L I : Type 0} (c : Currency L) (t : ItemTransfer I) (owner i : ℕ) (a : Auction)
    (winner moment item : ℕ) (w : World L I) (h : WellFormed w.store)
    (found : w.store.auctions i ≡ some a) (has_item : a.item ≡ some item)
    (has_bid : a.latest_participate ≡ some (winner, moment))
    (done : (do_stop_auction c t owner i w).0 ≡ ok tt) where
  -- A stop that succeeds has settled the auction.
  pub stop-settled :
      ((do_settle_auction c t a w).0 ≡ ok tt)
      × ((do_stop_auction c t owner i w).1.items ≡ (do_settle_auction c t a w).1.items)
      × ((do_stop_auction c t owner i w).1.ledger ≡ (do_settle_auction c t a w).1.ledger)
  unfolding do_stop_auction
  stop-settled = elim (ensure_auction-cases i none (some owner) w.store) [
    | inl (e, bad) ↦ let no = rw bad at done in cc
    | inr (b, g) ↦
        let same : b ≡ a = some_eq (sym g.found ∙ found) in
        elim (Bool-cases (same_status b.status stopped)) [
          | inl over ↦ let no = rw (g.result, over) at done in cc
          | inr live ↦
              let finish : Unit {0} → Action (World L I) (Unit {0}) = λ _.
                modify (modify_store (change_auction_status i b.status stopped))
                >> modify (modify_store (remove_all_from_set active_vec (i ∷ []))) in
              let (x, settled, rest) =
                and_then-ok (settle_if_started c t b w) finish tt (rw (g.result, live) at done) in
              let one : settle_if_started c t b w ≡ do_settle_auction c t a w =
                ap (λ (d : Auction). settle_if_started c t d w) same
                ∙ rw (bid-started i a winner moment w.store h found has_bid, settle_if_started)
                    refl in
              let whole : do_stop_auction c t owner i w ≡ finish tt (settle_if_started c t b w).1 =
                rw (g.result, live) rest in
              (
                sym (ap (λ y. y.0) one) ∙ settled,
                ap (λ y. y.1.items) whole ∙ ap (λ y. y.1.items) one,
                ap (λ y. y.1.ledger) whole ∙ ap (λ y. y.1.ledger) one,
              )
        ]
  ]

  module _ (Good : I → Type 0) (lawful : Lawful t Good) (good : Good w.items) where
    -- Where the items are lawful, a stop that succeeds on an auction with an item and a latest bid
    -- found the item with the auction's owner, and leaves it with the latest bidder alone.
    pub do_stop_auction-sold :
        (t.is_item_owner a.owner item w.items ≡ true)
        × ((who : ℕ)
            → t.is_item_owner who item (do_stop_auction c t owner i w).1.items ≡ (who == winner))
    do_stop_auction-sold = elim (Bool-cases (t.is_item_owner a.owner item w.items)) [
      | inl owns ↦ (
        owns,
        λ who. rw stop-settled.1 (
            do_settle_auction-owner c t a winner moment item w has_item has_bid stop-settled.0 Good
              lawful good owns who),
      )
      | inr gone ↦
          let kept =
            (unlock_all-Kept c a.id (get_or (w.store.auction_participants a.id) []) w).items in
          let (e, refused) = lawful.refuses a.owner winner item w.items gone in
          let steps =
            do_settle_auction-Settled c t a winner moment item w has_item has_bid stop-settled.0 in
          let given = rw kept at steps.handed_over in
          let no = sym (ap (λ y. y.0) refused) ∙ given in cc
    ]
