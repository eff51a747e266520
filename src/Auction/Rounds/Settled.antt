-- ===== src/Auction/Rounds/Settled.antt =====
-- What a round leaves for the worker to find in its lists.
use archer_in_zoo.Prelude.{
  ℕ, ◌≡◌, refl, ap, ◌∙◌, true, false, not, ◌&&◌, Option, none, some, List, [], ◌∷◌, arith, contains,
  Bool-cases, inl, inr,
}
use archer_in_zoo.Auction.Types.{Auction, Store, active, stopped}
use archer_in_zoo.Auction.Store.{with_status, has_status, is_auctions_with_status}
use archer_in_zoo.Auction.Offchain.{starting_auction_ids, stoping_auction_ids}
use archer_in_zoo.Auction.WellFormed.{WellFormed}
use archer_in_zoo.Auction.Due.{starts, stops, contains-due}
use archer_in_zoo.Auction.Sweeps.{swept}

none_contained : (l : List ℕ) → ((i : ℕ) → contains i l ≡ false) → l ≡ []
none_contained [] h = refl
none_contained (x ∷ xs) h = absurd (ground (arith, h x))

-- To make a pending auction active does not change whether it is to be stopped.
stops-active :
    (now : ℕ) (s s' : Store) (a : Option Auction)
    → s'.auction_bids ≡ s.auction_bids
    → starts now a ≡ true
    → stops now s' (with_status active a) ≡ stops now s a
stops-active now s s' none bids e = refl
stops-active now s s' (some a) bids e = ground (arith, e, bids)

stops-bids :
    (now : ℕ) (s s' : Store) (a : Option Auction)
    → s'.auction_bids ≡ s.auction_bids
    → stops now s' a ≡ stops now s a
stops-bids now s s' none bids = refl
stops-bids now s s' (some a) bids = rw bids refl

stops-stopped :
    (now : ℕ) (s : Store) (a : Option Auction) → stops now s (with_status stopped a) ≡ false
stops-stopped now s none = refl
stops-stopped now s (some a) = refl

-- An auction that was made active is not stopped.
pub running-swept :
    (ids : List ℕ) (i : ℕ) (a : Option Auction)
    → has_status a stopped true ≡ true
    → has_status (swept active ids i a) stopped true ≡ true
unfolding has_status
running-swept ids i none e = cc
running-swept ids i (some a) e = ground (arith, e)

pub running-all :
    (ids : List ℕ) (s s' : Store)
    → ((i : ℕ)
        → has_status (s.auctions i) stopped true ≡ true
        → has_status (s'.auctions i) stopped true ≡ true)
    → is_auctions_with_status ids stopped true s ≡ true
    → is_auctions_with_status ids stopped true s' ≡ true
unfolding is_auctions_with_status
running-all [] s s' keeps e = refl
running-all (i ∷ is) s s' keeps e = ground (arith, e, keeps i, running-all is s s' keeps)

-- What a round makes of the auction `i`.
abbrev pub after_round : (starting stoping : List ℕ) → (i : ℕ) → Option Auction → Option Auction
after_round starting stoping i a = swept stopped stoping i (swept active starting i a)

starts-after_round :
    (now : ℕ) (starting stoping : List ℕ) (i : ℕ) (a : Option Auction)
    → starts now (after_round starting stoping i a)
      ≡ (starts now a && not (contains i starting) && not (contains i stoping))
starts-after_round now starting stoping i none = ground arith
starts-after_round now starting stoping i (some a) = ground arith

stops-after_round :
    (now : ℕ) (s s' : Store) (starting stoping : List ℕ) (i : ℕ) (a : Option Auction)
    → s'.auction_bids ≡ s.auction_bids
    → (contains i starting ≡ true → starts now a ≡ true)
    → contains i stoping ≡ false
    → stops now s' (after_round starting stoping i a) ≡ stops now s a
stops-after_round now s s' starting stoping i a bids due left =
    elim (Bool-cases (contains i starting)) [
      | inl one ↦ rw (left, one) (stops-active now s s' a bids (due one))
      | inr other ↦ rw (left, other) (stops-bids now s s' a bids)
    ]

-- The storage before and after a round, as far as the worker reads it.
pub record Round (now : ℕ) (s s' : Store) : Type 0 where
  pub auctions :
      (i : ℕ)
      → s'.auctions i
        ≡ after_round (starting_auction_ids now s) (stoping_auction_ids now s) i (s.auctions i)
  pub bids : s'.auction_bids ≡ s.auction_bids
  pub pending :
      (i : ℕ)
      → contains i s'.pending_auctions
        ≡ (contains i s.pending_auctions && not (contains i (starting_auction_ids now s)))
  pub active :
      (i : ℕ)
      → contains i s'.active_auctions
        ≡ (contains i s.active_auctions && not (contains i (stoping_auction_ids now s)))

module _ (now : ℕ) (s s' : Store) (r : Round now s s') (h : WellFormed s) (h' : WellFormed s') where
  pub Round-no_start : starting_auction_ids now s' ≡ []
  Round-no_start = none_contained (starting_auction_ids now s') λ i.
      let starting = starting_auction_ids now s in
      let stoping = stoping_auction_ids now s in
      let before = (contains-due now i s h).0 in
      let over =
        ap (starts now) (r.auctions i) ∙ starts-after_round now starting stoping i (s.auctions i) in
      (contains-due now i s' h').0 ∙ ground (arith, before, over, r.pending i)

  pub Round-no_stop : stoping_auction_ids now s' ≡ []
  Round-no_stop = none_contained (stoping_auction_ids now s') λ i.
      let starting = starting_auction_ids now s in
      let stoping = stoping_auction_ids now s in
      let (due_start, due_stop) = contains-due now i s h in
      (contains-due now i s' h').1 ∙ (elim (Bool-cases (contains i stoping)) [
        | inl one ↦ ground (arith, r.active i, one)
        | inr left ↦
            let over =
              ap (stops now s') (r.auctions i)
              ∙ stops-after_round now s s' starting stoping i (s.auctions i) r.bids
                  (λ one. ground (arith, due_start, one)) left in
            ground (arith, r.active i, due_stop, over, left)
      ])
