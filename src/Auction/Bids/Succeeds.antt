-- ===== src/Auction/Bids/Succeeds.antt =====
-- When `participate_auction` takes a bid.
use archer_in_zoo.Prelude.{
  ℕ, ◌+◌, ◌-◌, ◌<◌, ◌≤◌, ◌≡◌, refl, true, Option, none, some, arith, get_or, ltb,
}
use archer_in_zoo.Words.{balance_mod}
use archer_in_zoo.Outcome.{ok}
use archer_in_zoo.Traits.{ItemTransfer}
use archer_in_zoo.Auction.Types.{Auction, Store, same_status, active}
use archer_in_zoo.Auction.Currency.{Currency, World}
use archer_in_zoo.Auction.Store.{ensure_auction_with_status}
use archer_in_zoo.Auction.Funds.{do_lock_balance, lock_of, bid_of, added_to}
use archer_in_zoo.Auction.Calls.{participate, exceeds_latest, delta_of}
use archer_in_zoo.Auction.WellFormed.{WellFormed}

-- The delta of a bid that is no lower than the earlier one, and what it makes of a bid and a lock.
delta-eq :
    (old : Option ℕ) (price : ℕ)
    → price < balance_mod
    → get_or old 0 ≤ price
    → delta_of price old ≡ price - get_or old 0
delta-eq none price h b = ground arith
delta-eq (some old) price h b = ground arith

added_to-some :
    (old : Option ℕ) (d : ℕ)
    → get_or old 0 + d < balance_mod
    → added_to old d ≡ some (d + get_or old 0)
added_to-some none d h = ground arith
added_to-some (some old) d h = ground arith

ensured_active :
    (i : ℕ) (a : Auction) (s : Store)
    → s.auctions i ≡ some a
    → a.status ≡ active
    → ensure_auction_with_status i (some active) none s ≡ (ok a, s)
unfolding ensure_auction_with_status
ensured_active i a s found running =
    let same : same_status a.status active ≡ true = rw running refl in rw (found, same) refl

-- On a well-formed storage, a bid on an active auction that is a balance, exceeds the latest bid and
-- step, is no lower than the account's earlier bid, raises that by less than the account's free
-- balance, and does not overflow its lock is taken without an error.
pub participate-ok :
    {L I : Type 0} (c : Currency L) (t : ItemTransfer I) (last p i price : ℕ) (w : World L I)
    (a : Auction)
    → WellFormed w.store
    → w.store.auctions i ≡ some a
    → a.status ≡ active
    → exceeds_latest price a (λ account. bid_of i account w.store) ≡ true
    → bid_of i p w.store ≤ price
    → price - bid_of i p w.store < c.free_balance w.ledger p
    → price < balance_mod
    → lock_of p w.store + (price - bid_of i p w.store) < balance_mod
    → (participate c t last p i price w).0 ≡ ok tt
unfolding participate do_lock_balance
participate-ok c t last p i price w a h found running high higher free small room =
    let own = h.ids i a found in
    let delta = delta-eq (w.store.auction_bids i p) price small higher in
    let covered : ltb (price - bid_of i p w.store) (c.free_balance w.ledger p) ≡ true =
      ground arith in
    let lock = added_to-some (w.store.account_locks p) (price - bid_of i p w.store) room in
    let bid = added_to-some (w.store.auction_bids i p) (price - bid_of i p w.store) (omega arith) in
    let high' : exceeds_latest price a (λ account. bid_of a.id account w.store) ≡ true =
      rw own high in
    let delta' : delta_of price (w.store.auction_bids a.id p) ≡ price - bid_of i p w.store =
      rw own delta in
    rw (ensured_active i a w.store found running, high', delta', covered, lock, bid) refl
