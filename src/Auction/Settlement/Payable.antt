-- ===== src/Auction/Settlement/Payable.antt =====
-- When the winner of an auction can pay, so that its settlement ends well.
use archer_in_zoo.Prelude.{
  Bool-cases, inl, inr, ℕ, ◌+◌, ◌≤◌, ◌≡◌, refl, ap, ◌∙◌, some, List, [], ◌==◌, arith, if◌then◌else◌,
  get_or,
}
use archer_in_zoo.Outcome.{ok, Action, and_then-eq, modify, ◌>>◌}
use archer_in_zoo.Traits.{ItemTransfer}
use archer_in_zoo.Auction.Types.{Auction}
use archer_in_zoo.Auction.Currency.{Currency, World, on_ledger, on_items, modify_ledger}
use archer_in_zoo.Auction.Funds.{
  unlock_all, bid_of, calc_auctino_fee, holding, settle_winner, handle_winner, do_settle_auction,
}
use archer_in_zoo.Auction.Fees.{calc_auctino_fee_lem}
use archer_in_zoo.Auction.Settlement.{CurrencyLaws}
use archer_in_zoo.Auction.Settlement.Locks.{unlock_all-Kept}
use archer_in_zoo.Auction.Settlement.Unread.{unlock_all-SameRead}
use archer_in_zoo.Auction.Settlement.Winner.{drawn}

-- What is documented of when a currency moves money: `usable` is the part of the free balance that
-- no lock keeps from being withdrawn, and locks without a reason keep nothing. A withdrawal that
-- keeps the account alive succeeds where the minimum balance stays usable, and so does a transfer to
-- an account that has the minimum balance afterwards, and no more than a balance holds.
pub record CurrencyProgress {L : Type 0} (c : Currency L) (minimum maximum : ℕ)
    (usable : L → (account : ℕ) → ℕ) : Type 0 where
  pub usable_le : (l : L) (q : ℕ) → usable l q ≤ c.free_balance l q
  pub set_lock_usable :
      (id : List ℕ) (account amount q : ℕ) (l : L)
      → usable (c.set_lock id account amount l) q ≡ usable l q
  pub remove_lock_usable :
      (id : List ℕ) (account q : ℕ) (l : L) → usable (c.remove_lock id account l) q ≡ usable l q
  pub withdraws :
      (account value : ℕ) (l : L)
      → value + minimum ≤ usable l account
      → (imbalance : ℕ) × ((c.withdraw account value l).0 ≡ ok imbalance)
  pub withdraw_usable :
      (account value : ℕ) (l : L)
      → value + minimum ≤ usable l account
      → usable (c.withdraw account value l).1 account + value ≡ usable l account
  pub transfers :
      (source dest value : ℕ) (l : L)
      → value + minimum ≤ usable l source
      → minimum ≤ c.free_balance l dest + value
      → c.free_balance l dest + value ≤ maximum
      → (c.transfer source dest value l).0 ≡ ok tt

-- The winner can pay the bid, and the owner can take it.
pub record CanPay {L : Type 0} (c : Currency L) (minimum maximum : ℕ)
    (usable : L → (account : ℕ) → ℕ) (winner owner bid : ℕ) (l : L) : Type 0 where
  pub covered : bid + minimum ≤ usable l winner
  pub alive : minimum ≤ c.free_balance l owner
  pub fits : c.free_balance l owner + bid ≤ maximum

module _ {L I : Type 0} (c : Currency L) (minimum maximum : ℕ) (laws : CurrencyLaws c minimum)
    (usable : L → (account : ℕ) → ℕ) (can : CurrencyProgress c minimum maximum usable) where
  holding-of_ok :
      (n : ℕ) (m : Action (World L I) (Unit {0})) (w : World L I)
      → (m w).0 ≡ ok tt
      → (holding c n m w).0 ≡ ok tt
  holding-of_ok n m w e = ground (arith, e)

  module _ (t : ItemTransfer I) (winner owner item bid : ℕ) (w : World L I)
      (pays : CanPay c minimum maximum usable winner owner bid w.ledger) where
    abbrev value : ℕ
    value = (calc_auctino_fee bid).0

    abbrev fee : ℕ
    fee = (calc_auctino_fee bid).1

    abbrev left : L
    left = (c.withdraw winner fee w.ledger).1

    split : value + fee ≡ bid
    split = (calc_auctino_fee_lem bid).0

    fee_covered : fee + minimum ≤ usable w.ledger winner
    fee_covered = omega (arith, split, pays.covered)

    fee_drawn : (imbalance : ℕ) × ((c.withdraw winner fee w.ledger).0 ≡ ok imbalance)
    fee_drawn = can.withdraws winner fee w.ledger fee_covered

    left_usable : value + minimum ≤ usable left winner
    left_usable =
        omega (arith, can.withdraw_usable winner fee w.ledger fee_covered, split, pays.covered)

    left_free :
        (q : ℕ)
        → c.free_balance left q + (if q == winner then fee else 0) ≡ c.free_balance w.ledger q
    left_free q = laws.withdrawn winner fee fee_drawn.0 q w.ledger fee_drawn.1

    -- The owner's account has the minimum balance afterwards, be the owner the winner or not.
    owner_alive : minimum ≤ c.free_balance left owner + value
    owner_alive = elim (Bool-cases (owner == winner)) [
      | inr apart ↦
          let out0 = left_free owner in let out = rw apart at out0 in omega (arith, out, pays.alive)
      | inl same ↦
          let e : owner ≡ winner = ground (arith, same) in
          rw e (omega (arith, can.usable_le left winner, left_usable))
    ]

    owner_fits : c.free_balance left owner + value ≤ maximum
    owner_fits = let out = left_free owner in ground (arith, out, split, pays.fits)

    paid : (c.transfer winner owner value left).0 ≡ ok tt
    paid = can.transfers winner owner value left left_usable owner_alive owner_fits

    pub settle_winner-ok :
        (t.transfer_item owner winner item w.items).0 ≡ ok tt
        → (settle_winner c t owner winner item bid w).0 ≡ ok tt
    unfolding settle_winner
    settle_winner-ok given =
        let (n, out) = fee_drawn in
        let pay : Action (World L I) (Unit {0}) =
          on_ledger (c.transfer winner owner value)
          >> on_items (t.transfer_item owner winner item) in
        let after : Unit {0} → Action (World L I) (Unit {0}) =
          λ _. modify (modify_ledger (c.on_unbalanced n)) in
        let d = drawn c t owner winner item bid w in
        let done : (pay d).0 ≡ ok tt =
          ap (λ x. x.0)
            (and_then-eq (on_ledger (c.transfer winner owner value) d)
              (λ _. on_items (t.transfer_item owner winner item)) tt paid)
          ∙ given in
        let first =
          and_then-eq (on_ledger (c.withdraw winner fee) w)
            (λ imbalance.
              holding c imbalance pay >> modify (modify_ledger (c.on_unbalanced imbalance)))
            n out in
        let second = and_then-eq (holding c n pay d) after tt (holding-of_ok n pay d done) in
        ap (λ x. x.0) first ∙ ap (λ x. x.0) second

  -- A settlement whose participants can be unlocked, whose winner can pay and whose item can be handed
  -- over ends well.
  pub do_settle_auction-ok :
      (t : ItemTransfer I) (a : Auction) (winner moment item : ℕ) (w : World L I)
      → a.item ≡ some item
      → a.latest_participate ≡ some (winner, moment)
      → (unlock_all c a.id (get_or (w.store.auction_participants a.id) []) w).0 ≡ ok tt
      → CanPay c minimum maximum usable winner a.owner (bid_of a.id winner w.store) w.ledger
      → (t.transfer_item a.owner winner item w.items).0 ≡ ok tt
      → (do_settle_auction c t a w).0 ≡ ok tt
  unfolding do_settle_auction
  do_settle_auction-ok t a winner moment item w has_item has_bid unlocks pays given =
      let ps = get_or (w.store.auction_participants a.id) [] in
      let u = (unlock_all c a.id ps w).1 in
      let bid = bid_of a.id winner w.store in
      let settled : do_settle_auction c t a w ≡ handle_winner c t a u =
        and_then-eq (unlock_all c a.id ps w) (λ _. handle_winner c t a) tt unlocks in
      let kept = unlock_all-Kept c a.id ps w in
      let same_bid : bid_of a.id winner u.store ≡ bid =
        ap (λ f. get_or (f a.id winner) 0) kept.bids in
      let free =
        unlock_all-SameRead c c.free_balance laws.set_lock_free laws.remove_lock_free a.id ps w in
      let same_usable =
        unlock_all-SameRead c usable can.set_lock_usable can.remove_lock_usable a.id ps w in
      let pays' : CanPay c minimum maximum usable winner a.owner bid u.ledger = record {
        covered = rw (same_usable winner) pays.covered;
        alive = rw (free a.owner) pays.alive;
        fits = rw (free a.owner) pays.fits;
      } in
      let given' : (t.transfer_item a.owner winner item u.items).0 ≡ ok tt = rw kept.items given in
      let handled : handle_winner c t a u ≡ settle_winner c t a.owner winner item bid u =
        rw (has_item, has_bid, same_bid) refl in
      ap (λ x. x.0) (settled ∙ handled) ∙ settle_winner-ok t winner a.owner item bid u pays' given'
