-- ===== src/Auction/Accounts/Bids.antt =====
-- Bids and the locks that stand for them.
use archer_in_zoo.Prelude.{
  ℕ, ◌+◌, ◌≤◌, ◌<◌, ◌≡◌, refl, sym, ◌∙◌, true, false, ◌&&◌, Option, none, some, ◌==◌, arith,
  if◌then◌else◌, Bool-cases, inl, inr, get_or,
}
use archer_in_zoo.Words.{balance_mod}
use archer_in_zoo.Traits.{ItemTransfer}
use archer_in_zoo.Auction.Types.{Auction, Store, active}
use archer_in_zoo.Auction.Currency.{Currency, World}
use archer_in_zoo.Auction.Funds.{lock_of, bid_of, added_to}
use archer_in_zoo.Auction.Calls.{participate, delta_of}
use archer_in_zoo.Auction.Bids.{participate-cases}
use archer_in_zoo.Auction.Bids.Taken.{BidTaken, accepted-BidTaken}
use archer_in_zoo.Auction.Participants.{Reach-AllDistinct, AllDistinct}
use archer_in_zoo.Auction.WellFormed.{WellFormed, Reach-WellFormed}
use archer_in_zoo.Auction.Steps.Signed.{participate-Reach}
use archer_in_zoo.Auction.Accounts.{
  sum, sum_same, sum_changed, le-sum, is_live, has_started, stake, Accounted, live-lt,
}

-- On a live auction an account's lock covers its bid.
pub bid_of-le-lock_of :
    (s : Store) (i q : ℕ) (a : Auction)
    → Accounted s
    → s.auctions i ≡ some a
    → is_live (some a) ≡ true
    → bid_of i q s ≤ lock_of q s
bid_of-le-lock_of s i q a h found live =
    let staked : stake s q i ≡ bid_of i q s = rw (found, live) refl in
    omega
      (arith, le-sum (stake s q) i s.next_auction_id (live-lt s i a h.well found), staked, h.sums q)

-- Where a lock covers the earlier bid, a bid that fits the lock fits itself.
half_impossible :
    (old lock_before : Option ℕ) (price lock : ℕ)
    → get_or old 0 ≤ get_or lock_before 0
    → price < balance_mod
    → added_to lock_before (delta_of price old) ≡ some lock
    → added_to old (delta_of price old) ≡ none
    → ⊥
half_impossible none lock_before price lock le h e f = cc
half_impossible (some old) none price lock le h e f = ground arith
half_impossible (some old) (some l) price lock le h e f = ground arith

active-live : (a : Auction) → a.status ≡ active → is_live (some a) ≡ true
active-live a e = rw e refl

module _ {L I : Type 0} (c : Currency L) (last p i price : ℕ) (w w' : World L I)
    (h : Accounted w.store) (b : BidTaken c last p i price w w') where
  -- A new bid changes the stake of one account on one auction.
  taken-stake :
      (q j : ℕ) → stake w'.store q j ≡ (if (j == i) && (q == p) then price else stake w.store q j)
  taken-stake q j = elim (Bool-cases (j == i)) [
    | inl same ↦
        let e : j ≡ i = ground arith in
        let live = active-live b.auction b.is_active in
        rw (b.auctions j, b.bids j q, same, e, b.found, live) (ground arith)
    | inr apart ↦ rw (b.auctions j, apart, b.bids j q, apart) refl
  ]

  -- The account's own sum grows by what the bid grew.
  taken-sum :
      sum (stake w'.store p) w.store.next_auction_id + bid_of i p w.store
      ≡ sum (stake w.store p) w.store.next_auction_id + price
  taken-sum =
      let live = active-live b.auction b.is_active in
      let staked : stake w.store p i ≡ bid_of i p w.store = rw (b.found, live) refl in
      let changed =
        sum_changed (stake w.store p) (stake w'.store p) i w.store.next_auction_id
          (live-lt w.store i b.auction h.well b.found)
          (λ j apart. taken-stake p j ∙ rw apart refl) in
      let mine : stake w'.store p i ≡ price = taken-stake p i ∙ ground arith in
      omega (arith, changed, staked, mine)

  taken-sums : (q : ℕ) → lock_of q w'.store ≡ sum (stake w'.store q) w'.store.next_auction_id
  taken-sums q = elim (Bool-cases (q == p)) [
    | inl same ↦
        let e : q ≡ p = ground arith in
        rw (b.next_auction_id, b.locks q, same, e) (omega (arith, taken-sum, b.locked, h.sums p))
    | inr apart ↦
        rw (b.next_auction_id, b.locks q, apart)
          (h.sums q
            ∙ sym (
                sum_same (stake w.store q) (stake w'.store q) w.store.next_auction_id
                  (λ j r. taken-stake q j ∙ ground (arith, apart))))
  ]

  -- A bid that is taken leaves the accounts in order.
  taken-Accounted :
      WellFormed w'.store
      → AllDistinct w'.store
      → price < balance_mod
      → 0 < price
      → Accounted w'.store
  taken-Accounted well distinct small nonzero = record {
    well = well;
    distinct = distinct;
    sums = taken-sums;
    small_locks = λ q. ground (arith, b.locks q, b.fits, h.small_locks q);
    small_bids = λ j q. ground (arith, b.bids j q, h.small_bids j q);
    listed = λ j q. ground (arith, b.bids j q, b.participants j q, h.listed j q);
    opened = λ j q e. elim (Bool-cases (j == i)) [
      | inl same ↦
          let no : has_started (some b.auction) ≡ false = rw (b.auctions j, same) at e in
          let live : has_started (some b.auction) ≡ true = rw b.is_active refl in
          absurd (ground (arith, no, live))
      | inr apart ↦
          let e' : has_started (w.store.auctions j) ≡ false = rw (b.auctions j, apart) at e in
          b.bids j q ∙ ground (arith, apart, h.opened j q e')
    ];
    positive = λ j q. ground (arith, b.bids j q, h.positive j q, nonzero);
  }

module _ {L I : Type 0} (c : Currency L) (t : ItemTransfer I) (last p i price : ℕ)
    (w : World L I) where
  -- A bid of a price above 0, however it ends, keeps each account's lock equal to what the account
  -- has at stake.
  pub participate-Accounted :
      Accounted w.store
      → price < balance_mod
      → 0 < price
      → Accounted (participate c t last p i price w).1.store
  participate-Accounted h small nonzero =
      let reach = participate-Reach c t last p i price w in
      let well = Reach-WellFormed reach h.well in
      let distinct = Reach-AllDistinct reach h.distinct in
      elim (participate-cases c t last p i price w) [
        | inl (e, refused) ↦ rw refused h
        | inr (inl half) ↦
            let own : half.auction.id ≡ i = h.well.ids i half.auction half.found in
            let covered =
              bid_of-le-lock_of w.store i p half.auction h half.found
                (active-live half.auction half.is_active) in
            absurd (
              half_impossible (w.store.auction_bids i p) (w.store.account_locks p) price half.lock
                covered small (rw own at half.locked) (rw own at half.overflow))
        | inr (inr g) ↦
            let taken =
              accepted-BidTaken c t last p i price w h.well small (h.small_bids i p)
                (h.small_locks p) g in
            rw g.result (
              taken-Accounted c last p i price w _ h taken (rw g.result at well)
                (rw g.result at distinct) small nonzero)
      ]
