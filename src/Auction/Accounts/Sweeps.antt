-- ===== src/Auction/Accounts/Sweeps.antt =====
-- The stops of an owner and of the worker, and the locks.
use archer_in_zoo.Prelude.{
  ℕ, ◌≡◌, refl, sym, ◌∙◌, Bool, true, false, not, ◌&&◌, Option, none, some, List, [], ◌∷◌, ◌==◌,
  arith, Bool-cases, Option-cases, inl, inr, contains,
}
use archer_in_zoo.Outcome.{ok, and_then-ok, modify, Action, ◌>>◌}
use archer_in_zoo.Traits.{ItemTransfer}
use archer_in_zoo.Auction.Types.{Auction, stopped, active_vec, same_status}
use archer_in_zoo.Auction.Currency.{Currency, World, modify_store}
use archer_in_zoo.Auction.Store.{
  is_auctions_with_status, has_status, remove_all_from_set, change_auction_status,
}
use archer_in_zoo.Auction.Calls.{do_stop_auction, settle_if_started}
use archer_in_zoo.Auction.Passive.{stop_one, stop_each}
use archer_in_zoo.Auction.Sweeps.{stop_one-auctions}
use archer_in_zoo.Auction.WellFormed.{Reach-WellFormed}
use archer_in_zoo.Auction.Steps.{unqueues, quietly}
use archer_in_zoo.Auction.Steps.Ensured.{ensure_auction-cases}
use archer_in_zoo.Auction.Steps.Unsigned.{stop_one-Reach}
use archer_in_zoo.Auction.Accounts.{is_live, Accounted}
use archer_in_zoo.Auction.Accounts.Quiet.{Calm-Accounted}
use archer_in_zoo.Auction.Accounts.Stops.{stopped-Accounted}

abbrev pub no_repeats : List ℕ → Bool
no_repeats [] = true
no_repeats (x ∷ xs) = not (contains x xs) && no_repeats xs

pub and_both : (a b : Bool) → (a && b) ≡ true → (a ≡ true) × (b ≡ true)
and_both true b e = (refl, e)
and_both false b e = cc

not-true : (b : Bool) → not b ≡ true → b ≡ false
not-true true e = cc
not-true false e = refl

has_status-is_live : (o : Option Auction) → has_status o stopped true ≡ is_live o
unfolding has_status
has_status-is_live none = refl
has_status-is_live (some a) = refl

module _ {L I : Type 0} (c : Currency L) (t : ItemTransfer I) where
  stop_one-Accounted :
      (i : ℕ) (w : World L I)
      → Accounted w.store
      → is_live (w.store.auctions i) ≡ true
      → Accounted (stop_one c t i w).store
  unfolding stop_one
  stop_one-Accounted i w h live = elim (Option-cases (w.store.auctions i)) [
    | inl missing ↦ rw (missing, stop_one) h
    | inr (a, found) ↦
        let well = rw (found, stop_one) at (Reach-WellFormed (stop_one-Reach c t i w) h.well) in
        rw (found, stop_one) (stopped-Accounted c t i a w h found (rw found at live) a.status well)
  ]

  -- Stopping one auction leaves the status of the others.
  all_live_after :
      (i : ℕ) (is : List ℕ) (w : World L I)
      → contains i is ≡ false
      → is_auctions_with_status is stopped true (stop_one c t i w).store
        ≡ is_auctions_with_status is stopped true w.store
  unfolding is_auctions_with_status
  all_live_after i [] w h = refl
  all_live_after i (j ∷ js) w h =
      let apart : (j == i) ≡ false = ground (arith, h) in
      let same : (stop_one c t i w).store.auctions j ≡ w.store.auctions j =
        stop_one-auctions c t i j w ∙ rw apart refl in
      rw (same, all_live_after i js w (ground (arith, h))) refl

  pub stop_each-Accounted :
      (is : List ℕ) (w : World L I)
      → no_repeats is ≡ true
      → is_auctions_with_status is stopped true w.store ≡ true
      → Accounted w.store
      → Accounted (stop_each c t is w).store
  unfolding stop_each is_auctions_with_status has_status
  stop_each-Accounted [] w d live h = h
  stop_each-Accounted (i ∷ is) w d live h =
      let (new, rest) = and_both (not (contains i is)) (no_repeats is) d in
      let (first, others) =
        and_both (has_status (w.store.auctions i) stopped true)
          (is_auctions_with_status is stopped true w.store) live in
      stop_each-Accounted is (stop_one c t i w) rest
        (all_live_after i is w (not-true (contains i is) new) ∙ others)
        (stop_one-Accounted i w h (sym (has_status-is_live (w.store.auctions i)) ∙ first))

  -- An owner's stop that succeeds does what the worker's stop of that auction does.
  pub do_stop_auction-Accounted :
      (owner i : ℕ) (w : World L I)
      → Accounted w.store
      → (do_stop_auction c t owner i w).0 ≡ ok tt
      → Accounted (do_stop_auction c t owner i w).1.store
  unfolding do_stop_auction stop_one
  do_stop_auction-Accounted owner i w h e =
      elim (ensure_auction-cases i none (some owner) w.store) [
        | inl (e', bad) ↦ let no = rw bad at e in cc
        | inr (a, g) ↦ elim (Bool-cases (same_status a.status stopped)) [
          | inl over ↦ let no = rw (g.result, over) at e in cc
          | inr live ↦
              let after = rw (g.result, live) at e in
              let finish : Unit {0} → Action (World L I) (Unit {0}) = λ _.
                modify (modify_store (change_auction_status i a.status stopped))
                >> modify (modify_store (remove_all_from_set active_vec (i ∷ []))) in
              let (x, settled, rest) = and_then-ok (settle_if_started c t a w) finish tt after in
              let whole : do_stop_auction c t owner i w ≡ finish tt (settle_if_started c t a w).1 =
                rw (g.result, live) rest in
              let stop : (stop_one c t i w).store
                  ≡ change_auction_status i a.status stopped (settle_if_started c t a w).1.store =
                rw (g.found, stop_one) refl in
              let stopped_one = stop_one-Accounted i w h (rw (g.found, live) refl) in
              rw whole (
                Calm-Accounted (quietly (unqueues active_vec (i ∷ [])) refl)
                  (rw stop at stopped_one))
        ]
      ]
