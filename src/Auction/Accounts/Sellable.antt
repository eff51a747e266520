-- ===== src/Auction/Accounts/Sellable.antt =====
-- Selling the item of an auction where the locks are the sums of the bids.
use archer_in_zoo.Prelude.{
  ℕ, ◌≡◌, true, false, some, not, ap, ◌==◌, ◌+◌, ◌≤◌, refl, arith, if◌then◌else◌,
}
use archer_in_zoo.Outcome.{ok}
use archer_in_zoo.Traits.{ItemTransfer, Lawful}
use archer_in_zoo.Auction.Types.{Auction, stopped, same_status}
use archer_in_zoo.Auction.Currency.{Currency, World}
use archer_in_zoo.Auction.Funds.{bid_of, calc_auctino_fee}
use archer_in_zoo.Auction.Calls.{do_stop_auction, settle_if_started}
use archer_in_zoo.Auction.Settlement.{CurrencyLaws}
use archer_in_zoo.Auction.Settlement.Payable.{CurrencyProgress, CanPay, do_settle_auction-ok}
use archer_in_zoo.Auction.Settlement.Unsold.{stop_if_settled}
use archer_in_zoo.Auction.Settlement.Sold.{do_stop_auction-sold, bid-started, stop-settled}
use archer_in_zoo.Auction.Settlement.Payment.{do_settle_auction-pays}
use archer_in_zoo.Auction.Accounts.{Accounted}
use archer_in_zoo.Auction.Accounts.Stops.{unlock_all_live}

-- A stop by the owner that sells the item: it succeeds, the winner alone holds the item, and the bid
-- has gone from the winner to the owner, less the fee.
pub record Sale {L I : Type 0} (c : Currency L) (t : ItemTransfer I) (i winner item : ℕ)
    (a : Auction) (w : World L I) : Type 0 where
  pub result_ok : (do_stop_auction c t a.owner i w).0 ≡ ok tt
  pub holder :
      (who : ℕ)
      → t.is_item_owner who item (do_stop_auction c t a.owner i w).1.items ≡ (who == winner)
  pub balances :
      (q : ℕ)
      → c.free_balance (do_stop_auction c t a.owner i w).1.ledger q
          + (if q == winner then bid_of a.id winner w.store else 0)
        ≡ c.free_balance w.ledger q
          + (if q == a.owner then (calc_auctino_fee (bid_of a.id winner w.store)).0 else 0)

module _ {L I : Type 0} (c : Currency L) (t : ItemTransfer I) (minimum maximum : ℕ)
    (laws : CurrencyLaws c minimum) (usable : L → (account : ℕ) → ℕ)
    (can : CurrencyProgress c minimum maximum usable) (Good : I → Type 0)
    (lawful : Lawful t Good) where
  sells :
      (i winner moment item : ℕ) (a : Auction) (w : World L I)
      → Accounted w.store
      → w.store.auctions i ≡ some a
      → same_status a.status stopped ≡ false
      → a.item ≡ some item
      → a.latest_participate ≡ some (winner, moment)
      → CanPay c minimum maximum usable winner a.owner (bid_of a.id winner w.store) w.ledger
      → Good w.items
      → t.is_item_owner a.owner item w.items ≡ true
      → (do_stop_auction c t a.owner i w).0 ≡ ok tt
  unfolding settle_if_started
  sells i winner moment item a w h found live has_item has_bid pays good owns =
      let started = bid-started i a winner moment w.store h.well found has_bid in
      let settles =
        do_settle_auction-ok c minimum maximum laws usable can t a winner moment item w has_item
          has_bid (unlock_all_live c t i a w h found (ap not live)) pays
          (lawful.gives a.owner winner item w.items good owns) in
      stop_if_settled c t a.owner i a w found refl live (rw (started, settle_if_started) settles)

  -- The sale, on a storage whose locks are the sums of the bids.
  pub Accounted-Sale :
      (i winner moment item : ℕ) (a : Auction) (w : World L I)
      → Accounted w.store
      → w.store.auctions i ≡ some a
      → same_status a.status stopped ≡ false
      → a.item ≡ some item
      → a.latest_participate ≡ some (winner, moment)
      → CanPay c minimum maximum usable winner a.owner (bid_of a.id winner w.store) w.ledger
      → Good w.items
      → t.is_item_owner a.owner item w.items ≡ true
      → Sale c t i winner item a w
  Accounted-Sale i winner moment item a w h found live has_item has_bid pays good owns =
      let done = sells i winner moment item a w h found live has_item has_bid pays good owns in
      let (settles, same_items, same_ledger) =
        stop-settled c t a.owner i a winner moment item w h.well found has_item has_bid done in
      let rich : bid_of a.id winner w.store + minimum ≤ c.free_balance w.ledger winner =
        omega (arith, pays.covered, can.usable_le w.ledger winner) in
      record {
        result_ok = done;
        holder =
            (do_stop_auction-sold c t a.owner i a winner moment item w h.well found has_item has_bid
              done Good lawful good).1;
        balances = λ q. rw same_ledger (
            do_settle_auction-pays c minimum laws t a winner moment item w has_item has_bid settles
              rich q);
      }
