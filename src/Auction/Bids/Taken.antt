-- ===== src/Auction/Bids/Taken.antt =====
-- The world after `participate_auction`, where the bid is taken and where it is not.
use archer_in_zoo.Prelude.{
  ◌||◌, ◌++◌, [], ◌∷◌, contains, Bool-cases, ℕ, ◌+◌, ◌<◌, ◌≤◌, ◌≡◌, refl, ap, true, ◌&&◌, ◌==◌,
  Option, ◌⊎◌, false, Option-cases, Bool, sym, ltb, ◌∙◌, none, some, if◌then◌else◌, get_or, arith,
  inl, inr,
}
use archer_in_zoo.Auction.Participants.{contains-with_participant}
use archer_in_zoo.Words.{balance_mod}
use archer_in_zoo.Outcome.{Error, ok, err}
use archer_in_zoo.Traits.{ItemTransfer}
use archer_in_zoo.Auction.Types.{bidder_updated, Auction, Store, active, auction_id_lock}
use archer_in_zoo.Auction.Currency.{Currency, World}
use archer_in_zoo.Auction.Store.{do_participate_auction}
use archer_in_zoo.Auction.Funds.{lock_of, bid_of, added_to}
use archer_in_zoo.Auction.Calls.{participate, exceeds_latest, delta_of}
use archer_in_zoo.Auction.WellFormed.{WellFormed, some_eq}
use archer_in_zoo.Auction.Bids.{bid_world, Accepted, participate-cases}

-- The price is above the sum of the latest bid and the minimum step, if there is a latest bid.
abbrev pub outbids : (i price : ℕ) → Auction → Store → Bool
outbids i price a s = elim a.latest_participate [
  | none ↦ true
  | some (account, moment) ↦ ltb (bid_of i account s + a.minimum_step) price
]

-- That sum is a balance.
abbrev pub has_room : (i : ℕ) → Auction → Store → Bool
has_room i a s = elim a.latest_participate [
  | none ↦ true
  | some (account, moment) ↦ ltb (bid_of i account s + a.minimum_step) balance_mod
]

-- Where the sum does not wrap round, the code's test is the plain one.
exceeds_latest-outbids :
    (i price : ℕ) (a : Auction) (s : Store)
    → has_room i a s ≡ true
    → exceeds_latest price a (λ account. bid_of i account s) ≡ true
    → outbids i price a s ≡ true
exceeds_latest-outbids i price a s room above = elim (Option-cases a.latest_participate) [
  | inl first ↦ rw first refl
  | inr ((q, m), latest) ↦
      let room' = rw latest at room in
      let above' = rw latest at above in rw latest (ground (arith, room', above'))
]

-- The world before and after a bid that is taken, in all its parts.
pub record BidTaken {L I : Type 0} (c : Currency L) (last p i price : ℕ) (before after : World L I)
    : Type 0 where
  pub auction : Auction
  pub found : before.store.auctions i ≡ some auction
  pub is_active : auction.status ≡ active
  pub lock : ℕ
  pub locked : lock + bid_of i p before.store ≡ lock_of p before.store + price
  pub fits : lock < balance_mod
  pub bids :
      (j q : ℕ)
      → after.store.auction_bids j q
        ≡ (if (j == i) && (q == p) then some price else before.store.auction_bids j q)
  pub locks :
      (q : ℕ)
      → after.store.account_locks q ≡ (if q == p then some lock else before.store.account_locks q)
  pub auctions :
      (j : ℕ)
      → after.store.auctions j ≡ (
          if j == i
          then some (record auction { latest_participate = some (p, last) })
          else before.store.auctions j)
  pub participants :
      (j q : ℕ)
      → contains q (get_or (after.store.auction_participants j) [])
        ≡ (((j == i) && (q == p)) || contains q (get_or (before.store.auction_participants j) []))
  pub events : after.store.events ≡ before.store.events ++ bidder_updated i p price 0 ∷ []
  pub next_auction_id : after.store.next_auction_id ≡ before.store.next_auction_id
  pub auction_items : after.store.auction_items ≡ before.store.auction_items
  pub pending_auctions : after.store.pending_auctions ≡ before.store.pending_auctions
  pub active_auctions : after.store.active_auctions ≡ before.store.active_auctions
  pub ledger : after.ledger ≡ c.extend_lock auction_id_lock p lock before.ledger
  pub items : after.items ≡ before.items

-- The bid and the lock of a delta that does not overflow.
pub raised_bid :
    (old : Option ℕ) (price bid : ℕ)
    → price < balance_mod
    → get_or old 0 < balance_mod
    → added_to old (delta_of price old) ≡ some bid
    → bid ≡ price
raised_bid none price bid h b e = cc
raised_bid (some old) price bid h b e = ground arith

raised_lock :
    (old lock_before : Option ℕ) (price bid lock : ℕ)
    → price < balance_mod
    → get_or old 0 < balance_mod
    → get_or lock_before 0 < balance_mod
    → added_to old (delta_of price old) ≡ some bid
    → added_to lock_before (delta_of price old) ≡ some lock
    → (lock + get_or old 0 ≡ get_or lock_before 0 + price) × (lock < balance_mod)
raised_lock none none price bid lock h b l e f = ground arith
raised_lock none (some old_lock) price bid lock h b l e f = ground arith
raised_lock (some old) none price bid lock h b l e f = ground arith
raised_lock (some old) (some old_lock) price bid lock h b l e f = ground arith

pub raised_overflow :
    (old : Option ℕ) (price : ℕ)
    → get_or old 0 ≤ price
    → price < balance_mod
    → added_to old (delta_of price old) ≡ none
    → ⊥
raised_overflow none price h b e = cc
raised_overflow (some old) price h b e = ground arith

module _ {L I : Type 0} (c : Currency L) (t : ItemTransfer I) (last p i price : ℕ) (w : World L I)
    (h : WellFormed w.store) (small : price < balance_mod) where
  pub accepted-BidTaken :
      bid_of i p w.store < balance_mod
      → lock_of p w.store < balance_mod
      → (g : Accepted c t last p i price w)
      → BidTaken c last p i price w (bid_world c t last p i price w g.lock g.bid)
  unfolding do_participate_auction
  accepted-BidTaken small_bid small_lock g =
      let own : g.auction.id ≡ i = h.ids i g.auction g.found in
      let raised = rw own at g.raised in
      let locked = rw own at g.locked in
      let bid = raised_bid (w.store.auction_bids i p) price g.bid small small_bid raised in
      let sums =
        raised_lock (w.store.auction_bids i p) (w.store.account_locks p) price g.bid g.lock small
          small_bid small_lock raised locked in
      record {
        auction = g.auction;
        found = g.found;
        is_active = g.is_active;
        lock = g.lock;
        locked = sums.0;
        fits = sums.1;
        bids = λ j q. ground (arith, bid);
        locks = λ q. ground arith;
        auctions = λ j. ground (arith, g.found);
        participants = λ j q. elim (Bool-cases (j == i)) [
          | inl same ↦
              let e : j ≡ i = ground arith in
              rw (same, e) (contains-with_participant q p (w.store.auction_participants i))
          | inr apart ↦ rw apart refl
        ];
        events = refl;
        next_auction_id = refl;
        auction_items = refl;
        pending_auctions = refl;
        active_auctions = refl;
        ledger = refl;
        items = refl;
      }

  -- An accepted bid is above the sum of the latest bid and the step, or that sum is no balance.
  accepted-outbids :
      Accepted c t last p i price w
      → (a : Auction) → w.store.auctions i ≡ some a
      → (has_room i a w.store ≡ false) ⊎ (outbids i price a w.store ≡ true)
  accepted-outbids g a found = elim (Bool-cases (has_room i a w.store)) [
    | inr wraps ↦ inl wraps
    | inl room ↦
        let same : g.auction ≡ a = some_eq (sym g.found ∙ found) in
        let own : g.auction.id ≡ i = h.ids i g.auction g.found in
        let exceeds = rw own at g.exceeds in
        inr (
          sym (ap (λ b. outbids i price b w.store) same)
          ∙ exceeds_latest-outbids i price g.auction w.store
              (ap (λ b. has_room i b w.store) same ∙ room) exceeds)
  ]

  -- A bid by `participate_auction` that succeeds, on a well-formed storage with a price, bid and lock
  -- that are balances, was made on an active auction; where the sum of the auction's latest bid and
  -- minimum step is a balance too, the price is above that sum. The bid on record becomes the price,
  -- the account's lock grows by what the bid grew and the currency is told of it, the account is the
  -- auction's latest bidder and one of its participants, the event is deposited, and nothing else
  -- changes.
  pub participate-BidTaken :
      (a : Auction)
      → w.store.auctions i ≡ some a
      → bid_of i p w.store < balance_mod
      → lock_of p w.store < balance_mod
      → (participate c t last p i price w).0 ≡ ok tt
      → ((has_room i a w.store ≡ false) ⊎ (outbids i price a w.store ≡ true))
        × BidTaken c last p i price w (participate c t last p i price w).1
  participate-BidTaken a found small_bid small_lock done =
      elim (participate-cases c t last p i price w) [
        | inl (e, refused) ↦ let no : err e ≡ ok tt = rw refused at done in cc
        | inr (inl half) ↦ let no = rw half.result at done in cc
        | inr (inr g) ↦
            (accepted-outbids g a found, rw g.result (accepted-BidTaken small_bid small_lock g))
      ]

  -- On a well-formed storage, a bid by `participate_auction` that is a balance, is no less than the
  -- account's earlier bid and ends in an error leaves the whole world as it was.
  pub participate_refused :
      bid_of i p w.store ≤ price
      → (e : Error) → (participate c t last p i price w).0 ≡ err e
      → (participate c t last p i price w).1 ≡ w
  participate_refused higher e failed = elim (participate-cases c t last p i price w) [
    | inl (e', refused) ↦ ap (λ x. x.1) refused
    | inr (inl half) ↦
        let own : half.auction.id ≡ i = h.ids i half.auction half.found in
        absurd
          (raised_overflow (w.store.auction_bids i p) price higher small (rw own at half.overflow))
    | inr (inr g) ↦ let no = rw g.result at failed in cc
  ]
