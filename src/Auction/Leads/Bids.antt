-- ===== src/Auction/Leads/Bids.antt =====
-- A bid that is taken makes its account the highest bidder.
use archer_in_zoo.Prelude.{
  ℕ, ◌+◌, ◌<◌, ◌≤◌, ◌≡◌, refl, sym, ap, ◌∙◌, Bool, true, ◌&&◌, Option, none, some, ◌==◌, arith,
  Bool-cases, Option-cases, inl, inr, if◌then◌else◌, get_or, ltb,
}
use archer_in_zoo.Words.{balance_mod}
use archer_in_zoo.Traits.{ItemTransfer}
use archer_in_zoo.Auction.Types.{Auction, Store}
use archer_in_zoo.Auction.Currency.{Currency, World}
use archer_in_zoo.Auction.Store.{do_participate_auction}
use archer_in_zoo.Auction.Funds.{bid_of}
use archer_in_zoo.Auction.Calls.{participate, exceeds_latest}
use archer_in_zoo.Auction.WellFormed.{WellFormed}
use archer_in_zoo.Auction.Bids.{participate-cases}
use archer_in_zoo.Auction.Bids.Taken.{raised_bid, raised_overflow}
use archer_in_zoo.Auction.Leads.Quiet.{lead-none}
use archer_in_zoo.Auction.Leads.{lead, Leads}

-- A bid on the auction leaves room for its minimum step.
abbrev pub leaves_room : (price : ℕ) → Option Auction → Bool
leaves_room price none = true
leaves_room price (some a) = ltb (price + a.minimum_step) balance_mod

pub lead-some :
    (a : Auction) (p m : ℕ)
    → a.latest_participate ≡ some (p, m)
    → lead (some a) ≡ some (p, a.minimum_step)
lead-some a p m e = rw e refl

module _ (s : Store) (h : Leads s) (i price : ℕ) (a : Auction) (found : s.auctions i ≡ some a)
    (exceeds : exceeds_latest price a (λ account. bid_of i account s) ≡ true) where
  -- A price that exceeds the latest bid exceeds every bid on record.
  exceeds_all : (q b : ℕ) → s.auction_bids i q ≡ some b → b < price
  exceeds_all q b e = elim (Option-cases a.latest_participate) [
    | inl first ↦
        let none_yet = h.nobody i q (ap lead found ∙ lead-none a first) in
        let no = sym none_yet ∙ e in cc
    | inr ((p, m), latest) ↦
        let leads = ap lead found ∙ lead-some a p m latest in
        let room = h.room i p a.minimum_step leads in
        let above = rw latest at exceeds in
        elim (Bool-cases (q == p)) [
          | inl same ↦ let at_p : q ≡ p = ground arith in ground (arith, rw at_p at e, room, above)
          | inr other ↦ ground (arith, h.highest i p a.minimum_step q b leads e other, room, above)
        ]
  ]

  -- The storage after the bid.
  raised-Leads :
      (p : ℕ) (s' : Store)
      → leaves_room price (some a) ≡ true
      → ((j q : ℕ)
          → s'.auction_bids j q ≡ (if (j == i) && (q == p) then some price else s.auction_bids j q))
      → ((j : ℕ)
          → lead (s'.auctions j)
            ≡ (if j == i then some (p, a.minimum_step) else lead (s.auctions j)))
      → Leads s'
  raised-Leads p s' small bids leads = record {
    nobody = λ j q e. ground (arith, leads j, e, bids j q, h.nobody j q);
    highest = λ j p' step q b e f g. elim (Bool-cases (j == i)) [
      | inl same ↦
          let at_i : j ≡ i = ground arith in
          ground (arith, leads j, same, e, bids j q, bids j p', f, g, exceeds_all q b, at_i)
      | inr apart ↦
          ground (arith, leads j, apart, e, bids j q, bids j p', f, g, h.highest j p' step q b)
    ];
    room = λ j p' step e. ground (arith, leads j, e, bids j p', h.room j p' step, small);
  }

-- The bid of the account itself, as a number.
below_or_zero : (o : Option ℕ) (price : ℕ) → ((b : ℕ) → o ≡ some b → b < price) → get_or o 0 ≤ price
below_or_zero none price h = omega arith
below_or_zero (some b) price h = omega (arith, h b refl)

module _ {L I : Type 0} (c : Currency L) (t : ItemTransfer I) where
  pub participate-Leads :
      (last p i price : ℕ) (w : World L I)
      → WellFormed w.store
      → leaves_room price (w.store.auctions i) ≡ true
      → Leads w.store
      → Leads (participate c t last p i price w).1.store
  unfolding do_participate_auction
  participate-Leads last p i price w well small h = elim (participate-cases c t last p i price w) [
    | inl (e, refused) ↦ rw refused h
    | inr (inl half) ↦
        let own : half.auction.id ≡ i = well.ids i half.auction half.found in
        let fits = rw half.found at small in
        let below =
          exceeds_all w.store h i price half.auction half.found (rw own at half.exceeds) p in
        absurd (
          raised_overflow (w.store.auction_bids i p) price
            (below_or_zero (w.store.auction_bids i p) price below) (ground (arith, fits))
            (rw own at half.overflow))
    | inr (inr g) ↦
        let own : g.auction.id ≡ i = well.ids i g.auction g.found in
        let fits = rw g.found at small in
        let exceeds = rw own at g.exceeds in
        let below = exceeds_all w.store h i price g.auction g.found exceeds p in
        let old = below_or_zero (w.store.auction_bids i p) price below in
        let limit : price < balance_mod = ground (arith, fits) in
        let paid =
          raised_bid (w.store.auction_bids i p) price g.bid limit (omega (arith, old, limit))
            (rw own at g.raised) in
        rw g.result (
          raised-Leads w.store h i price g.auction g.found exceeds p _ fits
            (λ j q. ground (arith, paid)) (λ j. ground (arith, g.found)))
  ]
