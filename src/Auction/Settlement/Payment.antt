-- ===== src/Auction/Settlement/Payment.antt =====
-- `do_settle_auction` with a winner: who pays whom, and where the item goes.
use archer_in_zoo.Prelude.{
  ℕ, ◌+◌, ◌≤◌, ◌≡◌, ◌∙◌, Bool, some, [], ◌==◌, arith, if◌then◌else◌, get_or,
}
use archer_in_zoo.Outcome.{ok}
use archer_in_zoo.Traits.{ItemTransfer}
use archer_in_zoo.Auction.Types.{Auction}
use archer_in_zoo.Auction.Currency.{Currency, World}
use archer_in_zoo.Auction.Funds.{bid_of, calc_auctino_fee, do_settle_auction}
use archer_in_zoo.Auction.Fees.{calc_auctino_fee_lem}
use archer_in_zoo.Auction.Settlement.{CurrencyLaws}
use archer_in_zoo.Auction.Settlement.Unread.{unlock_all-SameRead}
use archer_in_zoo.Auction.Settlement.Winner.{drawn, unlocked, do_settle_auction-Settled}

-- The steps of a payment, added up.
payment_sum :
    (is_winner is_owner : Bool) (final drawn start bid value fee : ℕ)
    → value + fee ≡ bid
    → drawn + (if is_winner then fee else 0) ≡ start
    → final + (if is_winner then value else 0) ≡ drawn + (if is_owner then value else 0)
    → final + (if is_winner then bid else 0) ≡ start + (if is_owner then value else 0)
payment_sum is_winner is_owner final drawn start bid value fee split out over = ground arith

-- What the winner had left after the fee covers the rest.
covered_sum :
    (winner drawn unlocked start bid value fee minimum : ℕ)
    → drawn + (if winner == winner then fee else 0) ≡ unlocked
    → unlocked ≡ start
    → value + fee ≡ bid
    → bid + minimum ≤ start
    → value + minimum ≤ drawn
covered_sum winner drawn unlocked start bid value fee minimum out free split rich = ground arith

module _ {L I : Type 0} (c : Currency L) (minimum : ℕ) (laws : CurrencyLaws c minimum) where
  -- With a currency that keeps its laws, a settlement that succeeds on an auction with an item and a
  -- latest bid, and whose winner has that bid and the minimum balance, takes the bid, the fee
  -- included, from the winner and gives the bid less the fee to the owner, and changes no other free
  -- balance.
  pub do_settle_auction-pays :
      (t : ItemTransfer I) (a : Auction) (winner moment item : ℕ) (w : World L I)
      → a.item ≡ some item
      → a.latest_participate ≡ some (winner, moment)
      → (do_settle_auction c t a w).0 ≡ ok tt
      → bid_of a.id winner w.store + minimum ≤ c.free_balance w.ledger winner
      → (q : ℕ)
      → c.free_balance (do_settle_auction c t a w).1.ledger q
          + (if q == winner then bid_of a.id winner w.store else 0)
        ≡ c.free_balance w.ledger q
          + (if q == a.owner then (calc_auctino_fee (bid_of a.id winner w.store)).0 else 0)
  do_settle_auction-pays t a winner moment item w has_item has_bid done rich q =
      let bid = bid_of a.id winner w.store in
      let value = (calc_auctino_fee bid).0 in
      let fee = (calc_auctino_fee bid).1 in
      let s = do_settle_auction-Settled c t a winner moment item w has_item has_bid done in
      let u = unlocked c t a winner moment item w has_item has_bid done in
      let free =
        unlock_all-SameRead c c.free_balance laws.set_lock_free laws.remove_lock_free a.id
          (get_or (w.store.auction_participants a.id) []) w in
      let split = (calc_auctino_fee_lem bid).0 in
      let out =
        λ (account : ℕ). laws.withdrawn winner fee s.imbalance account u.ledger s.withdrawn in
      let covered : value + minimum
          ≤ c.free_balance (drawn c t a.owner winner item bid u).ledger winner =
        covered_sum winner _ _ _ bid value fee minimum (out winner) (free winner) split rich in
      rw (s.ledger, laws.on_unbalanced_free)
        (payment_sum (q == winner) (q == a.owner) _ _ _ bid value fee split (out q ∙ free q) (
          laws.transferred winner a.owner value q (drawn c t a.owner winner item bid u).ledger
            covered s.transferred))
