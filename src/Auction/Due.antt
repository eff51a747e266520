-- ===== src/Auction/Due.antt =====
-- Which auctions the worker finds due.
use archer_in_zoo.Prelude.{
  ℕ, ◌≡◌, refl, Bool, false, not, ◌&&◌, ◌||◌, Option, none, some, List, [], ◌∷◌, arith, contains,
  ltb, leb, Option-cases, inl, inr, is_some,
}
use archer_in_zoo.Words.{wrapping_sub, moment_mod}
use archer_in_zoo.Auction.Types.{Auction, Store, pending_start, stopped, same_status}
use archer_in_zoo.Auction.Funds.{bid_of}
use archer_in_zoo.Auction.Offchain.{
  start_due, stop_due, bid_ends, due_ids, starting_auction_ids, stoping_auction_ids,
}
use archer_in_zoo.Auction.WellFormed.{WellFormed}

-- A moment that is set and lies before `now`.
abbrev pub earlier : Option ℕ → ℕ → Bool
earlier none now = false
earlier (some t) now = ltb t now

abbrev pub starts : ℕ → Option Auction → Bool
starts now none = false
starts now (some a) = same_status a.status pending_start && earlier a.start_at now

-- The latest bid reaches the upper bound.
abbrev pub bound_reached : Auction → Store → Bool
bound_reached a s = elim a.latest_participate [
  | none ↦ false
  | some (account, moment) ↦ elim a.upper_bound_price [
    | none ↦ false
    | some upper ↦ leb upper (bid_of a.id account s)
  ]
]

-- The latest bid has stood for longer than the wait period.
abbrev pub waited : ℕ → Auction → Bool
waited now a = elim a.latest_participate [
  | none ↦ false
  | some (account, moment) ↦ elim a.wait_period [
    | none ↦ false
    | some period ↦ ltb period (wrapping_sub moment_mod now moment)
  ]
]

-- The end conditions as the README and the comments list them, each of which is enough: the stop time
-- has passed, the latest bid has reached the upper bound, or it has stood for the wait period.
abbrev pub should_stop : ℕ → Store → Option Auction → Bool
should_stop now s none = false
should_stop now s (some a) =
    not (same_status a.status stopped)
    && (earlier a.stop_at now || bound_reached a s || waited now a)

-- What the code asks for besides: a stop time, and an upper bound until that time has passed.
abbrev pub can_end : ℕ → Option Auction → Bool
can_end now none = false
can_end now (some a) = is_some a.stop_at && (earlier a.stop_at now || is_some a.upper_bound_price)

-- The auctions that the code finds due to stop.
abbrev pub stops : ℕ → Store → Option Auction → Bool
stops now s a = should_stop now s a && can_end now a

start_due-eq : (now : ℕ) (a : Auction) → start_due now a ≡ starts now (some a)
unfolding start_due
start_due-eq now a = ground arith

stop_due-eq : (now : ℕ) (s : Store) (a : Auction) → stop_due now s a ≡ stops now s (some a)
unfolding stop_due bid_ends
stop_due-eq now s a = ground arith

contains-due_ids :
    (due : Auction → Bool) (f : ℕ → Option Auction) (spec : Option Auction → Bool)
    → ((j : ℕ) (a : Auction) → f j ≡ some a → a.id ≡ j)
    → spec none ≡ false
    → ((a : Auction) → due a ≡ spec (some a))
    → (i : ℕ) (is : List ℕ) → contains i (due_ids due f is) ≡ (contains i is && spec (f i))
unfolding due_ids
contains-due_ids due f spec ids n same i [] = refl
contains-due_ids due f spec ids n same i (j ∷ js) =
    let rest = contains-due_ids due f spec ids n same i js in
    elim (Option-cases (f j)) [
      | inl missing ↦ rw (missing, due_ids) (ground (arith, rest, missing, n))
      | inr (a, found) ↦ rw (found, due_ids) (ground (arith, rest, found, same a, ids j a found))
    ]

pub contains-due :
    (now i : ℕ) (s : Store)
    → WellFormed s
    → (contains i (starting_auction_ids now s)
        ≡ (contains i s.pending_auctions && starts now (s.auctions i)))
      × (contains i (stoping_auction_ids now s) ≡ (
          contains i s.active_auctions
          && (should_stop now s (s.auctions i) && can_end now (s.auctions i))))
unfolding starting_auction_ids stoping_auction_ids
contains-due now i s h = (
  contains-due_ids (start_due now) s.auctions (starts now) h.ids refl (start_due-eq now) i
      s.pending_auctions,
  contains-due_ids (stop_due now s) s.auctions (stops now s) h.ids refl (stop_due-eq now s) i
      s.active_auctions,
)
