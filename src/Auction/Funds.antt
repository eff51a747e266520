-- ===== src/Auction/Funds.antt =====
-- Locks, fees and the settlement of auction/mod.rs.
use archer_in_zoo.Prelude.{
  ℕ, ◌-◌, ◌/◌, Option, none, some, List, [], ◌∷◌, ◌==◌, if◌then◌else◌, get_or, update, leb,
}
use archer_in_zoo.Outcome.{
  ok, err, Action, pure, gets, or_raise, modify, ensure, ◌>>=◌, ◌>>◌, balance_add_overflow,
  balance_sub_overflow, no_global_lock, global_lock_too_small,
}
use archer_in_zoo.Words.{checked_add, checked_sub}
use archer_in_zoo.Traits.{ItemTransfer}
use archer_in_zoo.Auction.Types.{Auction, Store, auction_id_lock}
use archer_in_zoo.Auction.Currency.{
  Currency, World, on_ledger, on_items, modify_store, modify_ledger,
}

-- `AccountLocks` and `AuctionBids`, a missing entry read as 0.
abbrev pub lock_of : ℕ → Store → ℕ
lock_of account s = get_or (s.account_locks account) 0

abbrev pub bid_of : (auction account : ℕ) → Store → ℕ
bid_of auction account s = get_or (s.auction_bids auction account) 0

abbrev pub put_lock : ℕ → Option ℕ → Store → Store
put_lock account v s = record s { account_locks = update s.account_locks account v }

abbrev pub put_bid : (auction account : ℕ) → Option ℕ → Store → Store
put_bid auction account v s = record s {
  auction_bids = update s.auction_bids auction (update (s.auction_bids auction) account v);
}

-- The value and what is stored already, if anything is.
abbrev pub added_to : Option ℕ → ℕ → Option ℕ
added_to none balance = some balance
added_to (some old) balance = checked_add balance old

-- The fee is a twentieth of the price, and 1 at most.
unfoldable pub calc_auctino_fee : ℕ → ℕ × ℕ
calc_auctino_fee price =
    let fee = (if leb (price / 20) 1 then price / 20 else 1) in (price - fee, fee)

module _ {L I : Type 0} (c : Currency L) where
  unfoldable pub do_lock_balance : (auction account balance : ℕ) → Action (World L I) (Unit {0})
  do_lock_balance auction account balance = do
    old_lock ← gets (λ w. w.store.account_locks account)
    global_lock ← or_raise (added_to old_lock balance) balance_add_overflow
    modify (modify_store (put_lock account (some global_lock)))
    old_bid ← gets (λ w. w.store.auction_bids auction account)
    auction_lock ← or_raise (added_to old_bid balance) balance_add_overflow
    modify (modify_store (put_bid auction account (some auction_lock)))
    modify (modify_ledger (c.extend_lock auction_id_lock account global_lock))

  -- What is left of the account's lock: nothing, or a smaller lock.
  abbrev pub lower_lock : (account global_lock : ℕ) → World L I → World L I
  lower_lock account global_lock w =
      if global_lock == 0
      then modify_ledger (c.remove_lock auction_id_lock account)
          (modify_store (put_lock account none) w)
      else modify_ledger (c.set_lock auction_id_lock account global_lock)
          (modify_store (put_lock account (some global_lock)) w)

  abbrev pub unlock_bid : (account auction_lock : ℕ) → Action (World L I) (Unit {0})
  unlock_bid account auction_lock = do
    old_lock ← gets (λ w. w.store.account_locks account)
    global_lock ← or_raise old_lock no_global_lock
    ensure (leb auction_lock global_lock) global_lock_too_small
    rest ← or_raise (checked_sub global_lock auction_lock) balance_sub_overflow
    modify (lower_lock account rest)

  unfoldable pub do_unlock_balance : (auction account : ℕ) → Action (World L I) (Unit {0})
  do_unlock_balance auction account w = elim (w.store.auction_bids auction account) [
    | none ↦ (ok tt, w)
    | some auction_lock ↦ unlock_bid account auction_lock w
  ]

  -- `participants.iter().try_for_each(...)`
  unfoldable pub unlock_all :
      (auction : ℕ) → (participants : List ℕ) → Action (World L I) (Unit {0})
  unfolding do_unlock_balance
  unlock_all auction [] = pure tt
  unlock_all auction (account ∷ rest) = do
    do_unlock_balance auction account
    unlock_all auction rest

  -- An error of `m` ends the call, and the imbalance that it holds is dropped.
  abbrev pub holding :
      (imbalance : ℕ) → Action (World L I) (Unit {0}) → Action (World L I) (Unit {0})
  holding imbalance m w =
      let (r, w') = m w in
      elim r [ ok x ↦ (ok x, w') | err e ↦ (err e, modify_ledger (c.drop_imbalance imbalance) w') ]

  module _ (t : ItemTransfer I) where
    unfoldable pub settle_winner : (owner winner item_id bid : ℕ) → Action (World L I) (Unit {0})
    unfolding calc_auctino_fee
    settle_winner owner winner item_id bid = do
      let (tranfer_value, fee) = calc_auctino_fee bid
      fee_imbalance ← on_ledger (c.withdraw winner fee)
      holding fee_imbalance (do
        on_ledger (c.transfer winner owner tranfer_value)
        on_items (t.transfer_item owner winner item_id))
      modify (modify_ledger (c.on_unbalanced fee_imbalance))

    -- The winner is paid for only where there is an item and a bid.
    abbrev pub handle_winner : Auction → Action (World L I) (Unit {0})
    handle_winner a w = elim a.item [
      | none ↦ (ok tt, w)
      | some item_id ↦ elim a.latest_participate [
        | none ↦ (ok tt, w)
        | some (winner, moment) ↦
            settle_winner a.owner winner item_id (bid_of a.id winner w.store) w
      ]
    ]

    unfoldable pub do_settle_auction : Auction → Action (World L I) (Unit {0})
    unfolding unlock_all settle_winner
    do_settle_auction a = do
      participants ← gets (λ w. w.store.auction_participants a.id)
      unlock_all a.id (get_or participants [])
      handle_winner a
