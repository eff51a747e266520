-- ===== src/Auction/Accounts/Stops.antt =====
-- Stops and the locks that they release.
use archer_in_zoo.Prelude.{
  ℕ, ◌+◌, ◌≡◌, refl, ap, ◌∙◌, true, false, some, List, [], ◌∷◌, ◌==◌, arith, if◌then◌else◌,
  Bool-cases, inl, inr, get_or, contains,
}
use archer_in_zoo.Outcome.{ok, and_then-eq}
use archer_in_zoo.Traits.{ItemTransfer}
use archer_in_zoo.Auction.Types.{Auction, Store, AuctionStatus, stopped, pending_start, same_status}
use archer_in_zoo.Auction.Currency.{Currency, World}
use archer_in_zoo.Auction.Store.{change_auction_status}
use archer_in_zoo.Auction.Funds.{lock_of, bid_of, unlock_all, handle_winner, do_settle_auction}
use archer_in_zoo.Auction.Calls.{settle_if_started}
use archer_in_zoo.Auction.WellFormed.{WellFormed}
use archer_in_zoo.Auction.Settlement.Locks.{unlock_all-locks, unlock_all-Kept}
use archer_in_zoo.Auction.Settlement.Covered.{is_covered, all_covered, unlock_all-ok}
use archer_in_zoo.Auction.Settlement.Stop.{handle_winner-store}
use archer_in_zoo.Auction.Steps.Funds.{OnlyFunds, settle_if_started-OnlyFunds}
use archer_in_zoo.Auction.Accounts.{
  sum, sum_changed, is_live, has_started, stake, Accounted, live-lt,
}
use archer_in_zoo.Auction.Accounts.Bids.{bid_of-le-lock_of}

-- The store after the auction `i` is stopped and what accounts had at stake on it is released.
record Released (i : ℕ) (a : Auction) (s s' : Store) : Type 0 where
  pub locks : (q : ℕ) → lock_of q s' + stake s q i ≡ lock_of q s
  pub bids : s'.auction_bids ≡ s.auction_bids
  pub participants : s'.auction_participants ≡ s.auction_participants
  pub next : s'.next_auction_id ≡ s.next_auction_id
  pub auctions :
      (j : ℕ)
      → s'.auctions j ≡ (if j == i then some (record a { status = stopped }) else s.auctions j)

module _ (i : ℕ) (a : Auction) (s s' : Store) (h : Accounted s) (r : Released i a s s')
    (found : s.auctions i ≡ some a) where
  released-stake : (q j : ℕ) → stake s' q j ≡ (if j == i then 0 else stake s q j)
  released-stake q j = elim (Bool-cases (j == i)) [
    | inl same ↦ rw (r.auctions j, same) refl
    | inr apart ↦ rw (r.auctions j, apart, r.bids) refl
  ]

  released-sums : (q : ℕ) → lock_of q s' ≡ sum (stake s' q) s'.next_auction_id
  released-sums q =
      let changed =
        sum_changed (stake s q) (stake s' q) i s.next_auction_id (live-lt s i a h.well found)
          (λ j apart. released-stake q j ∙ rw apart refl) in
      let gone : stake s' q i ≡ 0 = released-stake q i ∙ ground arith in
      rw r.next (omega (arith, changed, gone, r.locks q, h.sums q))

  released-Accounted : WellFormed s' → Accounted s'
  released-Accounted well = record {
    well = well;
    distinct = rw r.participants h.distinct;
    sums = released-sums;
    small_locks = λ q. omega (arith, r.locks q, h.small_locks q);
    small_bids = rw r.bids h.small_bids;
    listed = rw (r.bids, r.participants) h.listed;
    opened = λ j q e. elim (Bool-cases (j == i)) [
      | inl same ↦ let no = rw (r.auctions j, same) at e in cc
      | inr apart ↦
          let e' : has_started (s.auctions j) ≡ false = rw (r.auctions j, apart) at e in
          rw r.bids (h.opened j q e')
    ];
    positive = rw r.bids h.positive;
  }

-- The stop of an auction whose locks are released already.
status-Released :
    (i : ℕ) (a : Auction) (s s1 : Store) (old : AuctionStatus)
    → s.auctions i ≡ some a
    → OnlyFunds s s1
    → ((q : ℕ) → lock_of q s1 + stake s q i ≡ lock_of q s)
    → s1.auction_bids ≡ s.auction_bids
    → Released i a s (change_auction_status i old stopped s1)
unfolding change_auction_status
status-Released i a s s1 old found only locks same_bids = record {
  locks = locks;
  bids = same_bids;
  participants = ap (λ x. x.auction_participants) only;
  next = ap (λ x. x.next_auction_id) only;
  auctions =
      λ j. let same : s1.auctions ≡ s.auctions = ap (λ x. x.auctions) only in rw (same, found) refl;
}

pub all_covered_from :
    (i : ℕ) (qs : List ℕ) (s : Store)
    → ((q : ℕ) → is_covered i q s ≡ true)
    → all_covered i qs s ≡ true
all_covered_from i [] s h = refl
all_covered_from i (q ∷ qs) s h = rw (h q) (all_covered_from i qs s h)

-- Every bid on a live auction is covered by a lock.
pub live-is_covered :
    (i q : ℕ) (a : Auction) (s : Store)
    → Accounted s
    → s.auctions i ≡ some a
    → is_live (some a) ≡ true
    → is_covered i q s ≡ true
live-is_covered i q a s h found live =
    ground (arith, bid_of-le-lock_of s i q a h found live, h.positive i q)

module _ {L I : Type 0} (c : Currency L) (t : ItemTransfer I) where
  module _ (i : ℕ) (a : Auction) (w : World L I) (h : Accounted w.store)
      (found : w.store.auctions i ≡ some a) (live : is_live (some a) ≡ true) where
    abbrev unlocked : World L I
    unlocked = (unlock_all c a.id (get_or (w.store.auction_participants a.id) []) w).1

    -- Every participant of a live auction can be unlocked.
    pub unlock_all_live :
        (unlock_all c a.id (get_or (w.store.auction_participants a.id) []) w).0 ≡ ok tt
    unlock_all_live =
        unlock_all-ok c a.id (get_or (w.store.auction_participants a.id) []) w (h.distinct a.id) (
          all_covered_from a.id _ w.store
            λ r. rw (h.well.ids i a found) (live-is_covered i r a w.store h found live))

    settled-store : (do_settle_auction c t a w).1.store ≡ unlocked.store
    unfolding do_settle_auction
    settled-store =
        let settled : do_settle_auction c t a w ≡ handle_winner c t a unlocked =
          and_then-eq (unlock_all c a.id (get_or (w.store.auction_participants a.id) []) w)
            (λ _. handle_winner c t a) tt unlock_all_live in
        ap (λ x. x.1.store) settled ∙ handle_winner-store c t a unlocked

    participant-stake :
        (q : ℕ)
        → (if contains q (get_or (w.store.auction_participants a.id) [])
            then bid_of a.id q w.store
            else 0)
          ≡ stake w.store q i
    participant-stake q = rw (h.well.ids i a found) (ground (arith, h.listed i q, found, live))

    settled-locks :
        (q : ℕ)
        → lock_of q (do_settle_auction c t a w).1.store + stake w.store q i ≡ lock_of q w.store
    settled-locks q =
        rw (settled-store, ← participant-stake q)
          (unlock_all-locks c a.id _ w q (h.distinct a.id) unlock_all_live)

    settled-bids : (do_settle_auction c t a w).1.store.auction_bids ≡ w.store.auction_bids
    settled-bids = ap (λ s. s.auction_bids) settled-store ∙ (unlock_all-Kept c a.id _ w).bids

    -- The settlement of a live auction, whether or not its payment fails, and then its stop.
    stopped-Released :
        (old : AuctionStatus)
        → Released i a w.store
            (change_auction_status i old stopped (settle_if_started c t a w).1.store)
    unfolding settle_if_started
    stopped-Released old =
        let only = settle_if_started-OnlyFunds c t a w in
        elim (Bool-cases (same_status a.status pending_start)) [
          | inl early ↦
              let none_yet : (q : ℕ) → stake w.store q i ≡ 0 =
                λ q. rw (found, live, h.opened i q (rw (found, early) refl)) refl in
              rw (early, settle_if_started)
                (status-Released i a w.store w.store old found refl (λ q. omega (arith, none_yet q))
                  refl)
          | inr started ↦
              status-Released i a w.store (settle_if_started c t a w).1.store old found only
                (λ q. rw (started, settle_if_started) (settled-locks q))
                (rw (started, settle_if_started) settled-bids)
        ]

    -- A stop by the worker's call, whatever comes of the settlement.
    pub stopped-Accounted :
        (old : AuctionStatus)
        → WellFormed (change_auction_status i old stopped (settle_if_started c t a w).1.store)
        → Accounted (change_auction_status i old stopped (settle_if_started c t a w).1.store)
    stopped-Accounted old well =
        released-Accounted i a w.store _ h (stopped-Released old) found well
