-- ===== src/Auction/Steps/Funds.antt =====
-- What locking, unlocking and settling write.
use archer_in_zoo.Prelude.{
  ℕ, ◌≡◌, refl, ◌∙◌, List, [], ◌∷◌, arith, Bool-cases, Option-cases, inl, inr, get_or,
}
use archer_in_zoo.Outcome.{Result, ok, err, Action, and_then, modify, ◌>>◌}
use archer_in_zoo.Auction.Funds.{
  holding, calc_auctino_fee, do_lock_balance, do_unlock_balance, unlock_all, settle_winner,
  do_settle_auction, handle_winner, unlock_bid, bid_of,
}
use archer_in_zoo.Auction.Currency.{on_ledger, on_items, Currency, World, modify_ledger}
use archer_in_zoo.Traits.{ItemTransfer}
use archer_in_zoo.Auction.Types.{Auction, Store, pending_start, same_status}
use archer_in_zoo.Auction.Calls.{settle_if_started}
use archer_in_zoo.Auction.Steps.{with_funds}

-- The second store has the locks and bids of its own, and all else of the first.
abbrev pub OnlyFunds : Store → Store → Type 0
OnlyFunds s s' = s' ≡ with_funds s'.account_locks s'.auction_bids s

OnlyFunds-trans : (s t u : Store) → OnlyFunds s t → OnlyFunds t u → OnlyFunds s u
OnlyFunds-trans s t u p q = q ∙ (λ i. with_funds u.account_locks u.auction_bids (p i))

and_then-OnlyFunds :
    {L I A B : Type 0} (w : World L I) (x : Result A × World L I) (f : A → Action (World L I) B)
    → OnlyFunds w.store x.1.store
    → ((a : A) (w' : World L I) → OnlyFunds w'.store (f a w').1.store)
    → OnlyFunds w.store (and_then x f).1.store
and_then-OnlyFunds w (ok a, w') f p rest =
    OnlyFunds-trans w.store w'.store (f a w').1.store p (rest a w')
and_then-OnlyFunds w (err e, w') f p rest = p

module _ {L I : Type 0} (c : Currency L) where
  pub do_lock_balance-OnlyFunds :
      (auction account balance : ℕ) (w : World L I)
      → OnlyFunds w.store (do_lock_balance c auction account balance w).1.store
  unfolding do_lock_balance
  do_lock_balance-OnlyFunds auction account balance w = ground arith

  unlock_bid-OnlyFunds :
      (account auction_lock : ℕ) (w : World L I)
      → OnlyFunds w.store (unlock_bid c account auction_lock w).1.store
  unlock_bid-OnlyFunds account auction_lock w = ground arith

  do_unlock_balance-OnlyFunds :
      (auction account : ℕ) (w : World L I)
      → OnlyFunds w.store (do_unlock_balance c auction account w).1.store
  unfolding do_unlock_balance
  do_unlock_balance-OnlyFunds auction account w =
      elim (Option-cases (w.store.auction_bids auction account)) [
        | inl e ↦ rw (e, do_unlock_balance) refl
        | inr (b, e) ↦ rw (e, do_unlock_balance) (unlock_bid-OnlyFunds account b w)
      ]

  unlock_all-OnlyFunds :
      (auction : ℕ) (ps : List ℕ) (w : World L I)
      → OnlyFunds w.store (unlock_all c auction ps w).1.store
  unfolding unlock_all
  unlock_all-OnlyFunds auction [] w = refl
  unlock_all-OnlyFunds auction (p ∷ ps) w =
      and_then-OnlyFunds w (do_unlock_balance c auction p w) (λ _. unlock_all c auction ps)
        (do_unlock_balance-OnlyFunds auction p w) (λ a w'. unlock_all-OnlyFunds auction ps w')

  holding-OnlyFunds :
      (imbalance : ℕ) (m : Action (World L I) (Unit {0})) (w : World L I)
      → OnlyFunds w.store (m w).1.store
      → OnlyFunds w.store (holding c imbalance m w).1.store
  holding-OnlyFunds imbalance m w h = ground arith

  module _ (t : ItemTransfer I) where
    settle_winner-OnlyFunds :
        (owner winner item bid : ℕ) (w : World L I)
        → OnlyFunds w.store (settle_winner c t owner winner item bid w).1.store
    unfolding settle_winner
    settle_winner-OnlyFunds owner winner item bid w =
        let (value, fee) = calc_auctino_fee bid in
        let pay : Action (World L I) (Unit {0}) =
          on_ledger (c.transfer winner owner value)
          >> on_items (t.transfer_item owner winner item) in
        and_then-OnlyFunds w (on_ledger (c.withdraw winner fee) w)
          (λ imbalance.
            holding c imbalance pay >> modify (modify_ledger (c.on_unbalanced imbalance)))
          refl
          λ imbalance w'.
            and_then-OnlyFunds w' (holding c imbalance pay w')
              (λ _. modify (modify_ledger (c.on_unbalanced imbalance)))
              (holding-OnlyFunds imbalance pay w' (
                and_then-OnlyFunds w' (on_ledger (c.transfer winner owner value) w')
                  (λ _. on_items (t.transfer_item owner winner item)) refl λ _ _. refl))
              λ _ _. refl

    handle_winner-OnlyFunds :
        (a : Auction) (w : World L I) → OnlyFunds w.store (handle_winner c t a w).1.store
    handle_winner-OnlyFunds a w = elim (Option-cases a.item) [
      | inl e ↦ rw e refl
      | inr (item, e) ↦ elim (Option-cases a.latest_participate) [
        | inl e' ↦ rw (e, e') refl
        | inr ((winner, m), e') ↦
            rw (e, e') (settle_winner-OnlyFunds a.owner winner item (bid_of a.id winner w.store) w)
      ]
    ]

    pub do_settle_auction-OnlyFunds :
        (a : Auction) (w : World L I) → OnlyFunds w.store (do_settle_auction c t a w).1.store
    unfolding do_settle_auction
    do_settle_auction-OnlyFunds a w =
        let ps = get_or (w.store.auction_participants a.id) [] in
        and_then-OnlyFunds w (unlock_all c a.id ps w) (λ _. handle_winner c t a)
          (unlock_all-OnlyFunds a.id ps w) (λ x w'. handle_winner-OnlyFunds a w')

    pub settle_if_started-OnlyFunds :
        (a : Auction) (w : World L I) → OnlyFunds w.store (settle_if_started c t a w).1.store
    unfolding settle_if_started
    settle_if_started-OnlyFunds a w = elim (Bool-cases (same_status a.status pending_start)) [
      | inl e ↦ rw (e, settle_if_started) refl
      | inr e ↦ rw (e, settle_if_started) (do_settle_auction-OnlyFunds a w)
    ]
