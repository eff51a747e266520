-- ===== src/Auction/Accounts.antt =====
-- What the locks of auction/mod.rs are for: each account's entry of `AccountLocks` against its bids.
pub mod Quiet
pub mod Bids
pub mod Stops
pub mod Sweeps
pub mod Histories
pub mod Stoppable
pub mod Sellable
use archer_in_zoo.Prelude.{
  Bool-cases, inl, inr, ℕ, zero, suc, ◌+◌, ◌≤◌, ◌<◌, ◌≡◌, refl, Bool, true, false, not, Option,
  none, some, [], ◌==◌, arith, if◌then◌else◌, is_some, get_or, ltb, contains, Distinct,
}
use archer_in_zoo.Words.{balance_mod}
use archer_in_zoo.Auction.Types.{Auction, Store, pending_start, stopped, same_status, empty_store}
use archer_in_zoo.Auction.Funds.{lock_of, bid_of}
use archer_in_zoo.Auction.WellFormed.{WellFormed, empty-WellFormed}

-- The sum of the first `n` values.
abbrev pub sum : (ℕ → ℕ) → ℕ → ℕ
sum f zero = 0
sum f (suc n) = sum f n + f n

pub sum_same : (f g : ℕ → ℕ) (n : ℕ) → ((j : ℕ) → j < n → g j ≡ f j) → sum g n ≡ sum f n
sum_same f g zero h = refl
sum_same f g (suc n) h =
    let p : n < suc n = omega arith in
    omega (arith, sum_same f g n (λ j q. h j (omega (arith, q))), h n p)

-- A change of one value among the first `n`.
pub sum_changed :
    (f g : ℕ → ℕ) (i n : ℕ)
    → i < n
    → ((j : ℕ) → (j == i) ≡ false → g j ≡ f j)
    → sum g n + f i ≡ sum f n + g i
sum_changed f g i zero h same = absurd (omega arith)
sum_changed f g i (suc n) h same = elim (Bool-cases (n == i)) [
  | inl here ↦
      let e : n ≡ i = ground arith in
      rw e (omega (arith, sum_same f g i (λ j p. same j (ground (arith, p)))))
  | inr apart ↦ omega (arith, same n apart, sum_changed f g i n (ground (arith, apart)) same)
]

pub le-sum : (f : ℕ → ℕ) (i n : ℕ) → i < n → f i ≤ sum f n
le-sum f i zero h = absurd (omega arith)
le-sum f i (suc n) h = ground (arith, le-sum f i n)

-- An auction that exists and is not stopped; and one that exists and has started.
abbrev pub is_live : Option Auction → Bool
is_live none = false
is_live (some a) = not (same_status a.status stopped)

abbrev pub has_started : Option Auction → Bool
has_started none = false
has_started (some a) = not (same_status a.status pending_start)

-- What an account has at stake on an auction.
abbrev pub stake : Store → (account auction : ℕ) → ℕ
stake s q i = if is_live (s.auctions i) then bid_of i q s else 0

abbrev pub is_positive : Option ℕ → Bool
is_positive none = true
is_positive (some b) = ltb 0 b

-- Each account's lock is what it has at stake on all auctions together.
pub record Accounted (s : Store) : Type 0 where
  pub well : WellFormed s
  pub distinct : (k : ℕ) → Distinct (get_or (s.auction_participants k) [])
  pub sums : (q : ℕ) → lock_of q s ≡ sum (stake s q) s.next_auction_id
  pub small_locks : (q : ℕ) → lock_of q s < balance_mod
  pub small_bids : (i q : ℕ) → bid_of i q s < balance_mod
  -- The participants are those with a bid.
  pub listed :
      (i q : ℕ) → is_some (s.auction_bids i q) ≡ contains q (get_or (s.auction_participants i) [])
  -- There are bids only on auctions that have started.
  pub opened : (i q : ℕ) → has_started (s.auctions i) ≡ false → s.auction_bids i q ≡ none
  pub positive : (i q : ℕ) → is_positive (s.auction_bids i q) ≡ true

pub empty-Accounted : Accounted empty_store
empty-Accounted = record {
  well = empty-WellFormed;
  distinct = λ k. tt;
  sums = λ q. refl;
  small_locks = λ q. omega arith;
  small_bids = λ i q. omega arith;
  listed = λ i q. refl;
  opened = λ i q h. refl;
  positive = λ i q. refl;
}

-- An auction with a number from the next one on is not there.
pub missing_auction :
    (s : Store) (i : ℕ) → WellFormed s → s.next_auction_id ≤ i → s.auctions i ≡ none
missing_auction s i h le = ground (arith, h.numbered i)

pub live-lt :
    (s : Store) (i : ℕ) (a : Auction) → WellFormed s → s.auctions i ≡ some a → i < s.next_auction_id
live-lt s i a h found = ground (arith, h.numbered i, found)
