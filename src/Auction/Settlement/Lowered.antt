-- ===== src/Auction/Settlement/Lowered.antt =====
-- What a settlement does to the locks, whether or not it succeeds.
use archer_in_zoo.Prelude.{
  ℕ, ◌≤◌, ◌≡◌, refl, ap, Bool-cases, Option-cases, List, [], ◌∷◌, leb, arith, inl, inr, get_or,
}
use archer_in_zoo.Outcome.{and_then-cases}
use archer_in_zoo.Traits.{ItemTransfer}
use archer_in_zoo.Auction.Types.{Auction, pending_start, same_status}
use archer_in_zoo.Auction.Calls.{settle_if_started}
use archer_in_zoo.Auction.Currency.{Currency, World}
use archer_in_zoo.Auction.Funds.{
  lock_of, unlock_bid, do_unlock_balance, unlock_all, handle_winner, do_settle_auction,
}
use archer_in_zoo.Auction.Settlement.Locks.{unlock_all-Kept}
use archer_in_zoo.Auction.Settlement.Stop.{handle_winner-store}

module _ {L I : Type 0} (c : Currency L) where
  -- No lock is higher than before.
  abbrev pub Lowered : World L I → World L I → Type 0
  Lowered w w' = (q : ℕ) → lock_of q w'.store ≤ lock_of q w.store

  unlock_bid-Lowered : (account b : ℕ) (w : World L I) → Lowered w (unlock_bid c account b w).1
  unlock_bid-Lowered account b w q = elim (Option-cases (w.store.account_locks account)) [
    | inl none_held ↦ rw none_held (omega arith)
    | inr (held, f) ↦ elim (Bool-cases (leb b held)) [
      | inr less ↦ rw (f, less) (omega arith)
      | inl enough ↦ rw (f, enough) (ground (arith, f, enough))
    ]
  ]

  do_unlock_balance-Lowered :
      (i account : ℕ) (w : World L I) → Lowered w (do_unlock_balance c i account w).1
  unfolding do_unlock_balance
  do_unlock_balance-Lowered i account w q = elim (Option-cases (w.store.auction_bids i account)) [
    | inl f ↦ rw (f, do_unlock_balance) (omega arith)
    | inr (b, f) ↦ rw (f, do_unlock_balance) (unlock_bid-Lowered account b w q)
  ]

  unlock_all-Lowered : (i : ℕ) (ps : List ℕ) (w : World L I) → Lowered w (unlock_all c i ps w).1
  unfolding unlock_all
  unlock_all-Lowered i [] w q = omega arith
  unlock_all-Lowered i (p ∷ ps) w q =
      let first = do_unlock_balance-Lowered i p w q in
      and_then-cases (λ x. lock_of q x.1.store ≤ lock_of q w.store) (do_unlock_balance c i p w)
        (λ _. unlock_all c i ps) (λ e w1 r. rw (ap (λ x. x.1) r) at first)
        λ _ w1 r.
          let before : lock_of q w1.store ≤ lock_of q w.store = rw (ap (λ x. x.1) r) at first in
          omega (arith, before, unlock_all-Lowered i ps w1 q)

  module _ (t : ItemTransfer I) where
    pub do_settle_auction-lowers :
        (a : Auction) (w : World L I)
        → Lowered w (do_settle_auction c t a w).1
          × ((do_settle_auction c t a w).1.store.auction_bids ≡ w.store.auction_bids)
    unfolding do_settle_auction
    do_settle_auction-lowers a w =
        let ps = get_or (w.store.auction_participants a.id) [] in
        let lower = unlock_all-Lowered a.id ps w in
        let bids = (unlock_all-Kept c a.id ps w).bids in
        and_then-cases (λ x. Lowered w x.1 × (x.1.store.auction_bids ≡ w.store.auction_bids))
          (unlock_all c a.id ps w) (λ _. handle_winner c t a)
          (λ e w1 r. (rw (ap (λ x. x.1) r) at lower, rw (ap (λ x. x.1) r) at bids))
          λ _ w1 r.
            rw (handle_winner-store c t a w1)
              (rw (ap (λ x. x.1) r) at lower, rw (ap (λ x. x.1) r) at bids)

    pub settle_if_started-bids :
        (a : Auction) (w : World L I)
        → (settle_if_started c t a w).1.store.auction_bids ≡ w.store.auction_bids
    unfolding settle_if_started
    settle_if_started-bids a w = elim (Bool-cases (same_status a.status pending_start)) [
      | inl early ↦ rw (early, settle_if_started) refl
      | inr begun ↦ rw (begun, settle_if_started) (do_settle_auction-lowers a w).1
    ]
