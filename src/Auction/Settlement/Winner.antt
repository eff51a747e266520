-- ===== src/Auction/Settlement/Winner.antt =====
-- `do_settle_auction` with a winner, step by step, and where the item goes.
use archer_in_zoo.Prelude.{ℕ, ◌≡◌, refl, ap, ◌∙◌, true, some, [], ◌==◌, arith, get_or}
use archer_in_zoo.Outcome.{ok, Action, and_then-ok, modify, ◌>>◌}
use archer_in_zoo.Traits.{ItemTransfer, Lawful}
use archer_in_zoo.Auction.Types.{Auction}
use archer_in_zoo.Auction.Currency.{Currency, World, on_ledger, on_items, modify_ledger}
use archer_in_zoo.Auction.Funds.{
  unlock_all, bid_of, calc_auctino_fee, holding, settle_winner, handle_winner, do_settle_auction,
}
use archer_in_zoo.Auction.Settlement.Locks.{unlock_all-Kept}

module _ {L I : Type 0} (c : Currency L) (t : ItemTransfer I) (owner winner item : ℕ) where
  abbrev pub drawn : (bid : ℕ) → World L I → World L I
  drawn bid w = (on_ledger (c.withdraw winner (calc_auctino_fee bid).1) w).1

  abbrev moved : (bid : ℕ) → World L I → World L I
  moved bid w = (on_ledger (c.transfer winner owner (calc_auctino_fee bid).0) (drawn bid w)).1

  -- The steps of a settlement that succeeds: the fee is withdrawn, the rest is transferred, the item
  -- is handed over, and the fee goes to its handler.
  pub record Settled (bid : ℕ) (w w' : World L I) : Type 0 where
    pub imbalance : ℕ
    pub withdrawn : (c.withdraw winner (calc_auctino_fee bid).1 w.ledger).0 ≡ ok imbalance
    pub transferred :
        (c.transfer winner owner (calc_auctino_fee bid).0 (drawn bid w).ledger).0 ≡ ok tt
    pub handed_over : (t.transfer_item owner winner item w.items).0 ≡ ok tt
    pub ledger : w'.ledger ≡ c.on_unbalanced imbalance (moved bid w).ledger
    pub items : w'.items ≡ (t.transfer_item owner winner item w.items).1

  holding-ok :
      (n : ℕ) (m : Action (World L I) (Unit {0})) (w : World L I)
      → (holding c n m w).0 ≡ ok tt
      → ((m w).0 ≡ ok tt) × (holding c n m w ≡ m w)
  holding-ok n m w e = ground (arith, e)

  pub settle_winner-Settled :
      (bid : ℕ) (w : World L I)
      → (settle_winner c t owner winner item bid w).0 ≡ ok tt
      → Settled bid w (settle_winner c t owner winner item bid w).1
  unfolding settle_winner
  settle_winner-Settled bid w e =
      let value = (calc_auctino_fee bid).0 in
      let fee = (calc_auctino_fee bid).1 in
      let pay : Action (World L I) (Unit {0}) =
        on_ledger (c.transfer winner owner value) >> on_items (t.transfer_item owner winner item) in
      let (n, out, rest) =
        and_then-ok (on_ledger (c.withdraw winner fee) w)
          (λ imbalance.
            holding c imbalance pay >> modify (modify_ledger (c.on_unbalanced imbalance)))
          tt e in
      let (x, held, rest') =
        and_then-ok (holding c n pay (drawn bid w))
          (λ _. modify (modify_ledger (c.on_unbalanced n))) tt (rw rest at e) in
      let (done, same) = holding-ok n pay (drawn bid w) held in
      let (y, over, rest'') =
        and_then-ok (on_ledger (c.transfer winner owner value) (drawn bid w))
          (λ _. on_items (t.transfer_item owner winner item)) tt done in
      let settled : settle_winner c t owner winner item bid w
          ≡ modify (modify_ledger (c.on_unbalanced n))
              (on_items (t.transfer_item owner winner item) (moved bid w)).1 =
        rest ∙ rest' ∙ ap (λ z. modify (modify_ledger (c.on_unbalanced n)) z.1) (same ∙ rest'') in
      rw settled (record {
        imbalance = n;
        withdrawn = out;
        transferred = over;
        handed_over = rw rest'' at done;
        ledger = refl;
        items = refl;
      })

module _ {L I : Type 0} (c : Currency L) (t : ItemTransfer I) (a : Auction) (winner moment item : ℕ)
    (w : World L I) (has_item : a.item ≡ some item)
    (has_bid : a.latest_participate ≡ some (winner, moment))
    (done : (do_settle_auction c t a w).0 ≡ ok tt) where
  abbrev pub unlocked : World L I
  unlocked = (unlock_all c a.id (get_or (w.store.auction_participants a.id) []) w).1

  pub unlocked-ok : (unlock_all c a.id (get_or (w.store.auction_participants a.id) []) w).0 ≡ ok tt
  unfolding do_settle_auction
  unlocked-ok =
      (and_then-ok (unlock_all c a.id (get_or (w.store.auction_participants a.id) []) w)
        (λ _. handle_winner c t a) tt done).1

  -- A settlement that succeeds unlocks the participants and then settles with the winner.
  settled-eq :
      do_settle_auction c t a w
      ≡ settle_winner c t a.owner winner item (bid_of a.id winner w.store) unlocked
  unfolding do_settle_auction
  settled-eq =
      let rest =
        (and_then-ok (unlock_all c a.id (get_or (w.store.auction_participants a.id) []) w)
          (λ _. handle_winner c t a) tt done).2 in
      let same_bid : bid_of a.id winner unlocked.store ≡ bid_of a.id winner w.store =
        ap (λ f. get_or (f a.id winner) 0) (unlock_all-Kept c a.id _ w).bids in
      let handled : handle_winner c t a unlocked
          ≡ settle_winner c t a.owner winner item (bid_of a.id winner unlocked.store) unlocked =
        rw (has_item, has_bid) refl in
      rest ∙ handled ∙ ap (λ b. settle_winner c t a.owner winner item b unlocked) same_bid

  pub do_settle_auction-Settled :
      Settled c t a.owner winner item
        (bid_of a.id winner w.store)
        unlocked
        (do_settle_auction c t a w).1
  do_settle_auction-Settled =
      rw settled-eq
        (settle_winner-Settled c t a.owner winner item _ unlocked (rw settled-eq at done))

  -- Where the items are lawful and the auction's owner holds the item, the winner of a settlement
  -- that succeeds on an auction with an item and a latest bid holds the item afterwards, and nobody
  -- else does.
  pub do_settle_auction-owner :
      (Good : I → Type 0)
      → Lawful t Good
      → Good w.items
      → t.is_item_owner a.owner item w.items ≡ true
      → (who : ℕ) → t.is_item_owner who item (do_settle_auction c t a w).1.items ≡ (who == winner)
  do_settle_auction-owner Good lawful good owns who =
      let kept = (unlock_all-Kept c a.id (get_or (w.store.auction_participants a.id) []) w).items in
      rw (do_settle_auction-Settled.items, kept)
        (lawful.owner_after a.owner winner item who item w.items good owns ∙ ground arith)
