-- ===== src/Auction/Bids.antt =====
-- `participate_auction`: its outcomes, and what a bid does to the bids and locks.
pub mod Taken
pub mod Succeeds
use archer_in_zoo.Prelude.{ℕ, ◌≡◌, true, none, some, Bool-cases, Option-cases, ◌⊎◌, inl, inr, ltb}
use archer_in_zoo.Outcome.{
  Error, ok, err, increment_too_small, not_enough_balance_to_lock, balance_add_overflow,
}
use archer_in_zoo.Traits.{ItemTransfer}
use archer_in_zoo.Auction.Types.{Auction, active, auction_id_lock}
use archer_in_zoo.Auction.Currency.{Currency, World}
use archer_in_zoo.Auction.Store.{do_participate_auction}
use archer_in_zoo.Auction.Funds.{do_lock_balance, bid_of, put_bid, put_lock, added_to}
use archer_in_zoo.Auction.Calls.{participate, exceeds_latest, delta_of}
use archer_in_zoo.Auction.Steps.Ensured.{Ensured, ensure_auction-cases}

module _ {L I : Type 0} (c : Currency L) (t : ItemTransfer I) (last p i price : ℕ)
    (w : World L I) where
  -- The world after a bid that makes the account's lock `lock` and its bid `bid`.
  abbrev bid_world : (lock bid : ℕ) → World L I
  bid_world lock bid = record {
    store =
        do_participate_auction last i p price
          (put_bid i p (some bid) (put_lock p (some lock) w.store));
    ledger = c.extend_lock auction_id_lock p lock w.ledger;
    items = w.items;
  }

  -- All checks of a bid are passed.
  pub record Accepted : Type 0 where
    pub auction : Auction
    pub found : w.store.auctions i ≡ some auction
    pub is_active : auction.status ≡ active
    pub exceeds : exceeds_latest price auction (λ account. bid_of auction.id account w.store) ≡ true
    pub lock : ℕ
    pub locked :
        added_to (w.store.account_locks p) (delta_of price (w.store.auction_bids auction.id p))
        ≡ some lock
    pub bid : ℕ
    pub raised :
        added_to (w.store.auction_bids i p) (delta_of price (w.store.auction_bids auction.id p))
        ≡ some bid
    pub result : participate c t last p i price w ≡ (ok tt, bid_world lock bid)

  -- The outcome in which the account's lock is raised and then its bid cannot be.
  pub record HalfDone : Type 0 where
    pub auction : Auction
    pub found : w.store.auctions i ≡ some auction
    pub is_active : auction.status ≡ active
    pub exceeds : exceeds_latest price auction (λ account. bid_of auction.id account w.store) ≡ true
    pub lock : ℕ
    pub locked :
        added_to (w.store.account_locks p) (delta_of price (w.store.auction_bids auction.id p))
        ≡ some lock
    pub overflow :
        added_to (w.store.auction_bids i p) (delta_of price (w.store.auction_bids auction.id p))
        ≡ none
    pub result : (participate c t last p i price w).0 ≡ err balance_add_overflow

  abbrev Refused : Type 0
  Refused = (e : Error) × (participate c t last p i price w ≡ (err e, w))

  abbrev Outcome : Type 0
  Outcome = Refused ⊎ HalfDone ⊎ Accepted

  paid_cases :
      (a : Auction)
      → Ensured i (some active) none w.store a
      → exceeds_latest price a (λ account. bid_of a.id account w.store) ≡ true
      → ltb (delta_of price (w.store.auction_bids a.id p)) (c.free_balance w.ledger p) ≡ true
      → Outcome
  unfolding participate do_lock_balance
  paid_cases a g high covered =
      let delta = delta_of price (w.store.auction_bids a.id p) in
      elim (Option-cases (added_to (w.store.account_locks p) delta)) [
        | inl e ↦ inl (balance_add_overflow, rw (g.result, high, covered, e))
        | inr (lock, e) ↦ elim (Option-cases (added_to (w.store.auction_bids i p) delta)) [
          | inl f ↦ inr (
              inl (record {
                auction = a;
                found = g.found;
                is_active = g.has_status;
                exceeds = high;
                lock = lock;
                locked = e;
                overflow = f;
                result = rw (g.result, high, covered, e, f);
              }))
          | inr (bid, f) ↦ inr (
              inr (record {
                auction = a;
                found = g.found;
                is_active = g.has_status;
                exceeds = high;
                lock = lock;
                locked = e;
                bid = bid;
                raised = f;
                result = rw (g.result, high, covered, e, f);
              }))
        ]
      ]

  pub participate-cases : Outcome
  unfolding participate
  participate-cases = elim (ensure_auction-cases i (some active) none w.store) [
    | inl (e, bad) ↦ inl (e, rw bad)
    | inr (a, g) ↦
        elim (Bool-cases (exceeds_latest price a (λ account. bid_of a.id account w.store))) [
          | inr low ↦ inl (increment_too_small, rw (g.result, low))
          | inl high ↦
              let delta = delta_of price (w.store.auction_bids a.id p) in
              elim (Bool-cases (ltb delta (c.free_balance w.ledger p))) [
                | inr short ↦ inl (not_enough_balance_to_lock, rw (g.result, high, short))
                | inl covered ↦ paid_cases a g high covered
              ]
        ]
  ]
