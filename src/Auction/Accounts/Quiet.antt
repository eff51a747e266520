-- ===== src/Auction/Accounts/Quiet.antt =====
-- Writes that leave the locks, the bids and the participants.
use archer_in_zoo.Prelude.{
  suc, ℕ, ◌+◌, ◌≡◌, refl, sym, ◌∙◌, true, false, some, ◌==◌, arith, if◌then◌else◌, Bool-cases, ◌⊎◌,
  inl, inr, update,
}
use archer_in_zoo.Auction.Types.{
  Auction, AuctionStatus, Store, pending_start, stopped, same_status, pending_vec, active_vec,
}
use archer_in_zoo.Auction.Store.{
  add_all_to_set, remove_all_from_set, insert_auction, change_auction_status,
}
use archer_in_zoo.Auction.Funds.{bid_of}
use archer_in_zoo.Auction.Steps.{
  Write, funds, creates, plans, moves, bids, queues, unqueues, is_quiet, can_move, Calm, still,
  after,
}
use archer_in_zoo.Auction.WellFormed.{WellFormed, Write-WellFormed}
use archer_in_zoo.Auction.Accounts.{
  sum, sum_same, is_live, has_started, stake, Accounted, missing_auction,
}

-- What a write may do to one auction: nothing, or a change that keeps what accounts have at stake and
-- that does not undo a start.
record Kept (s s' : Store) : Type 0 where
  pub locks : s'.account_locks ≡ s.account_locks
  pub bids : s'.auction_bids ≡ s.auction_bids
  pub participants : s'.auction_participants ≡ s.auction_participants
  pub stakes : (q i : ℕ) → stake s' q i ≡ stake s q i
  pub started : (i : ℕ) → has_started (s'.auctions i) ≡ false → has_started (s.auctions i) ≡ false
  pub next : (s'.next_auction_id ≡ s.next_auction_id) ⊎ (s'.next_auction_id ≡ s.next_auction_id + 1)

-- Nothing is at stake on the auction that comes next.
no_stake : (s : Store) (q : ℕ) → WellFormed s → stake s q s.next_auction_id ≡ 0
no_stake s q h = rw (missing_auction s s.next_auction_id h (omega arith)) refl

-- The sum goes up to the same auction, or to one more on which nothing is at stake.
sum_next :
    (f g : ℕ → ℕ) (n m : ℕ)
    → ((j : ℕ) → g j ≡ f j)
    → f n ≡ 0
    → (m ≡ n) ⊎ (m ≡ n + 1)
    → sum g m ≡ sum f n
sum_next f g n m same empty (inl e) = rw e (sum_same f g n (λ j p. same j))
sum_next f g n m same empty (inr e) =
    let e' : m ≡ suc n = omega arith in
    rw e' (omega (arith, sum_same f g n (λ j p. same j), same n, empty))

Kept-Accounted : (s s' : Store) → Accounted s → WellFormed s' → Kept s s' → Accounted s'
Kept-Accounted s s' h well k = record {
  well = well;
  distinct = rw k.participants h.distinct;
  sums = λ q. rw k.locks (
      h.sums q
      ∙ sym (
          sum_next (stake s q) (stake s' q) s.next_auction_id s'.next_auction_id (k.stakes q)
            (no_stake s q h.well) k.next));
  small_locks = rw k.locks h.small_locks;
  small_bids = rw k.bids h.small_bids;
  listed = rw (k.bids, k.participants) h.listed;
  opened = λ i q e. rw k.bids (h.opened i q (k.started i e));
  positive = rw k.bids h.positive;
}

-- One auction is replaced by another with the same stakes and no earlier status.
put-Kept :
    (s s' : Store) (j : ℕ) (a' : Auction)
    → s'.account_locks ≡ s.account_locks
    → s'.auction_bids ≡ s.auction_bids
    → s'.auction_participants ≡ s.auction_participants
    → s'.auctions ≡ update s.auctions j (some a')
    → ((q : ℕ) → (if is_live (some a') then bid_of j q s else 0) ≡ stake s q j)
    → (has_started (some a') ≡ false → has_started (s.auctions j) ≡ false)
    → (s'.next_auction_id ≡ s.next_auction_id) ⊎ (s'.next_auction_id ≡ s.next_auction_id + 1)
    → Kept s s'
put-Kept s s' j a' locks same_bids participants auctions stakes started next = record {
  locks = locks;
  bids = same_bids;
  participants = participants;
  stakes = λ q i. elim (Bool-cases (i == j)) [
    | inl same ↦ let e : i ≡ j = ground arith in rw (auctions, same_bids, same, e) (stakes q)
    | inr apart ↦ rw (auctions, same_bids, apart) refl
  ];
  started = λ i h. elim (Bool-cases (i == j)) [
    | inl same ↦ let e : i ≡ j = ground arith in rw e (started (rw (auctions, same) at h))
    | inr apart ↦ rw (auctions, apart) at h
  ];
  next = next;
}

-- Before and after a move that is no stop an auction is live, and only one that had not started has
-- not started.
can_move-live :
    (old new : AuctionStatus)
    → can_move old new ≡ true
    → same_status new stopped ≡ false
    → (same_status old stopped ≡ false)
      × (same_status new pending_start ≡ true → same_status old pending_start ≡ true)
can_move-live old new m q = ground (arith, m, q)

alike-Kept :
    (s s' : Store)
    → s'.account_locks ≡ s.account_locks
    → s'.auction_bids ≡ s.auction_bids
    → s'.auction_participants ≡ s.auction_participants
    → s'.auctions ≡ s.auctions
    → s'.next_auction_id ≡ s.next_auction_id
    → Kept s s'
alike-Kept s s' locks same_bids participants auctions next = record {
  locks = locks;
  bids = same_bids;
  participants = participants;
  stakes = λ q i. rw (auctions, same_bids) refl;
  started = λ i h. rw auctions at h;
  next = inl next;
}

Write-Kept : {s s' : Store} (w : Write s s') → is_quiet w ≡ true → Accounted s → Kept s s'
unfolding insert_auction change_auction_status add_all_to_set remove_all_from_set
Write-Kept (funds l b) q h = cc
Write-Kept (bids last j account price a found m) q h = cc
Write-Kept {s} (creates a room new) q h =
    let empty = missing_auction s s.next_auction_id h.well (omega arith) in
    put-Kept s _ s.next_auction_id a refl refl refl refl
      (λ r. ground (arith, h.opened s.next_auction_id r (rw empty refl), empty))
      (λ e. rw empty refl) (inr ground (arith, h.well.bounded, room))
Write-Kept {s} (plans j a a' found p p' latest terms) q h =
    put-Kept s _ j a' refl refl refl refl (λ r. rw (p', found, p) refl) (λ e. rw (found, p) refl)
      (inl refl)
Write-Kept {s} (moves j a old new found m) q h =
    let l = can_move-live a.status new m (ground (arith, q)) in
    put-Kept s _ j (record a { status = new }) refl refl refl (rw found refl)
      (λ r. rw found (ground (arith, l.0, q))) (λ e. rw found (ground (arith, e, l.1))) (inl refl)
Write-Kept (queues pending_vec is) q h = alike-Kept _ _ refl refl refl refl refl
Write-Kept (queues active_vec is) q h = alike-Kept _ _ refl refl refl refl refl
Write-Kept (unqueues pending_vec is) q h = alike-Kept _ _ refl refl refl refl refl
Write-Kept (unqueues active_vec is) q h = alike-Kept _ _ refl refl refl refl refl

pub Calm-Accounted : {s s' : Store} → Calm s s' → Accounted s → Accounted s'
Calm-Accounted still h = h
Calm-Accounted (after {t} {u} c w q) h =
    let g = Calm-Accounted c h in
    Kept-Accounted t u g (Write-WellFormed w g.well) (Write-Kept w q g)
