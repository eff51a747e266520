-- ===== src/Auction/Steps/Owned.antt =====
-- The operations of an auction's owner on the module's own storage, as sequences of quiet writes.
use archer_in_zoo.Prelude.{
  ℕ, ◌≡◌, refl, true, Option, some, [], ◌∷◌, arith, ◌==◌, Bool-cases, inl, inr,
}
use archer_in_zoo.Auction.Types.{
  Auction, Store, AuctionStatus, pending_start, paused, active, stopped, pending_vec,
  auction_id_max,
}
use archer_in_zoo.Auction.Store.{
  do_create_auction, do_setup_moments, do_pause_auction, do_resume_auction, get_next_auction_id,
  replaced, put_auction,
}
use archer_in_zoo.Auction.Steps.{
  Calm, still, after, quietly, funds, creates, plans, moves, queues, Reach, one, can_move,
}
use archer_in_zoo.Auction.Steps.Ensured.{ensure_auction-cases}
use archer_in_zoo.Auction.Steps.Funds.{OnlyFunds}

pub OnlyFunds-Reach : (s t : Store) → OnlyFunds s t → Reach s t
OnlyFunds-Reach s t e = rw e (one (funds t.account_locks t.auction_bids))

pub do_create_auction-Calm :
    (owner p m : ℕ) (u : Option ℕ) (s : Store) → Calm s (do_create_auction owner p m u s).1
unfolding do_create_auction get_next_auction_id
do_create_auction-Calm owner p m u s = elim (Bool-cases (s.next_auction_id == auction_id_max)) [
  | inl full ↦ rw full still
  | inr room ↦ rw room (
      quietly
        (creates _ (ground arith)
          (record { id = refl; status = refl; item = refl; latest_participate = refl }))
        refl)
]

-- Only the item and the times differ.
abbrev planned : Auction → (item start_at stop_at wait_period : Option ℕ) → Auction
planned a item b e p = record a { item = item; start_at = b; stop_at = e; wait_period = p }

pub planned-Calm :
    (i : ℕ) (a : Auction) (item b e p : Option ℕ) (s : Store)
    → s.auctions i ≡ some a
    → a.status ≡ pending_start
    → Calm s (put_auction i (planned a item b e p) s)
planned-Calm i a item b e p s found pending =
    quietly
      (plans i a (planned a item b e p) found pending pending refl (record {
        id = refl;
        owner = refl;
        begin_price = refl;
        upper_bound_price = refl;
        minimum_step = refl;
      }))
      refl

pub do_setup_moments-Calm :
    (owner i : ℕ) (b e p : Option ℕ) (s : Store) → Calm s (do_setup_moments owner i b e p s).1
unfolding do_setup_moments
do_setup_moments-Calm owner i b e p s =
    elim (ensure_auction-cases i (some pending_start) (some owner) s) [
      | inl (x, bad) ↦ rw bad still
      | inr (a, good) ↦ rw good.result (
          after
            (planned-Calm i a a.item (replaced b a.start_at) (replaced e a.stop_at)
              (replaced p a.wait_period) s good.found good.has_status)
            (queues pending_vec (i ∷ [])) refl)
    ]

pub do_pause_auction-Calm : (owner i : ℕ) (s : Store) → Calm s (do_pause_auction owner i s).1
unfolding do_pause_auction
do_pause_auction-Calm owner i s = elim (ensure_auction-cases i (some active) (some owner) s) [
  | inl (x, bad) ↦ rw bad still
  | inr (a, good) ↦
      rw good.result (quietly (moves i a a.status paused good.found (rw good.has_status refl)) refl)
]

pub do_resume_auction-Calm : (owner i : ℕ) (s : Store) → Calm s (do_resume_auction owner i s).1
unfolding do_resume_auction
do_resume_auction-Calm owner i s = elim (ensure_auction-cases i (some paused) (some owner) s) [
  | inl (x, bad) ↦ rw bad still
  | inr (a, good) ↦
      rw good.result (quietly (moves i a a.status active good.found (rw good.has_status refl)) refl)
]

pub can_move-stopped : (s : AuctionStatus) → can_move s stopped ≡ true
can_move-stopped pending_start = refl
can_move-stopped _ = refl
