-- ===== src/Auction/Settlement/Covered.antt =====
-- When the participants of an auction can all be unlocked.
use archer_in_zoo.Prelude.{
  ℕ, ◌≡◌, refl, ap, ◌∙◌, Bool, true, false, ◌&&◌, Option, none, some, List, [], ◌∷◌, ◌==◌, arith,
  Option-cases, inl, inr, leb, contains, Distinct,
}
use archer_in_zoo.Outcome.{ok, and_then-eq}
use archer_in_zoo.Auction.Types.{Store}
use archer_in_zoo.Auction.Currency.{Currency, World}
use archer_in_zoo.Auction.Funds.{do_unlock_balance, unlock_all}
use archer_in_zoo.Auction.Settlement.Locks.{do_unlock_balance-Kept}

-- The account has no bid on the auction, or a lock that is no smaller than its bid.
abbrev pub covers : (lock bid : Option ℕ) → Bool
covers lock none = true
covers none (some b) = false
covers (some l) (some b) = leb b l

abbrev pub is_covered : (auction account : ℕ) → Store → Bool
is_covered i q s = covers (s.account_locks q) (s.auction_bids i q)

-- Every account of the list is covered.
abbrev pub all_covered : (auction : ℕ) → List ℕ → Store → Bool
all_covered i [] s = true
all_covered i (q ∷ qs) s = is_covered i q s && all_covered i qs s

and_left : (a b : Bool) → (a && b) ≡ true → (a ≡ true) × (b ≡ true)
and_left true b e = (refl, e)
and_left false b e = cc

module _ {L I : Type 0} (c : Currency L) where
  do_unlock_balance-ok :
      (i account : ℕ) (w : World L I)
      → is_covered i account w.store ≡ true
      → (do_unlock_balance c i account w).0 ≡ ok tt
  unfolding do_unlock_balance
  do_unlock_balance-ok i account w h = elim (Option-cases (w.store.auction_bids i account)) [
    | inl e ↦ rw (e, do_unlock_balance) refl
    | inr (b, e) ↦ elim (Option-cases (w.store.account_locks account)) [
      | inl f ↦ let no = rw (e, f) at h in cc
      | inr (l, f) ↦ let enough = rw (e, f) at h in rw (e, do_unlock_balance, f, enough) refl
    ]
  ]

  do_unlock_balance_other :
      (i account q : ℕ) (w : World L I)
      → (q == account) ≡ false
      → (do_unlock_balance c i account w).1.store.account_locks q ≡ w.store.account_locks q
  unfolding do_unlock_balance
  do_unlock_balance_other i account q w n = elim (Option-cases (w.store.auction_bids i account)) [
    | inl e ↦ rw (e, do_unlock_balance) refl
    | inr (b, e) ↦ rw (e, do_unlock_balance) (ground (arith, n))
  ]

  all_covered_after :
      (i account : ℕ) (qs : List ℕ) (w : World L I)
      → contains account qs ≡ false
      → all_covered i qs (do_unlock_balance c i account w).1.store ≡ all_covered i qs w.store
  all_covered_after i account [] w h = refl
  all_covered_after i account (q ∷ qs) w h =
      let apart : (q == account) ≡ false = ground (arith, h) in
      let rest = all_covered_after i account qs w (ground (arith, h)) in
      let bids = ap (λ f. f i q) (do_unlock_balance-Kept c i account w).bids in
      rw (do_unlock_balance_other i account q w apart, bids, rest) refl

  -- Where distinct participants each have no bid on the auction or a lock no smaller than it, they
  -- are all unlocked without an error.
  pub unlock_all-ok :
      (i : ℕ) (participants : List ℕ) (w : World L I)
      → Distinct participants
      → all_covered i participants w.store ≡ true
      → (unlock_all c i participants w).0 ≡ ok tt
  unfolding unlock_all
  unlock_all-ok i [] w d h = refl
  unlock_all-ok i (p ∷ ps) w d h =
      let (mine, others) = and_left (is_covered i p w.store) (all_covered i ps w.store) h in
      let first = do_unlock_balance-ok i p w mine in
      let rest =
        unlock_all-ok i ps (do_unlock_balance c i p w).1 d.1
          (all_covered_after i p ps w d.0 ∙ others) in
      rw (and_then-eq (do_unlock_balance c i p w) (λ _. unlock_all c i ps) tt first) rest
