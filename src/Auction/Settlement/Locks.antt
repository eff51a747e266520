-- ===== src/Auction/Settlement/Locks.antt =====
-- The locks after the participants of an auction are unlocked.
use archer_in_zoo.Prelude.{
  none, is_some, ◌∙◌, true, false, ℕ, ◌+◌, ◌≡◌, refl, ap, List, [], ◌∷◌, ◌==◌, arith, if◌then◌else◌,
  Bool-cases, Option-cases, inl, inr, get_or, leb, contains, Distinct,
}
use archer_in_zoo.Outcome.{and_then-cases, ok, and_then-ok}
use archer_in_zoo.Auction.Currency.{Currency, World}
use archer_in_zoo.Auction.Funds.{do_unlock_balance, unlock_bid, unlock_all, lock_of, bid_of}

module _ {L I : Type 0} (c : Currency L) where
  -- What unlocking leaves alone.
  pub record Kept (w w' : World L I) : Type 0 where
    pub bids : w'.store.auction_bids ≡ w.store.auction_bids
    pub items : w'.items ≡ w.items

  unlock_bid-Kept : (account b : ℕ) (w : World L I) → Kept w (unlock_bid c account b w).1
  unlock_bid-Kept account b w = record { bids = ground arith; items = ground arith }

  pub do_unlock_balance-Kept :
      (i account : ℕ) (w : World L I) → Kept w (do_unlock_balance c i account w).1
  unfolding do_unlock_balance
  do_unlock_balance-Kept i account w = elim (Option-cases (w.store.auction_bids i account)) [
    | inl e ↦ rw (e, do_unlock_balance) (record { bids = refl; items = refl })
    | inr (b, e) ↦ rw (e, do_unlock_balance) (unlock_bid-Kept account b w)
  ]

  pub unlock_all-Kept :
      (i : ℕ) (participants : List ℕ) (w : World L I) → Kept w (unlock_all c i participants w).1
  unfolding unlock_all
  unlock_all-Kept i [] w = record { bids = refl; items = refl }
  unlock_all-Kept i (p ∷ ps) w =
      and_then-cases (λ x. Kept w x.1) (do_unlock_balance c i p w) (λ _. unlock_all c i ps)
        (λ e w1 q. rw (ap (λ x. x.1) q) at (do_unlock_balance-Kept i p w))
        λ _ w1 q.
          let first : Kept w w1 = rw (ap (λ x. x.1) q) at (do_unlock_balance-Kept i p w) in
          let rest = unlock_all-Kept i ps w1 in
          record { bids = rest.bids ∙ first.bids; items = rest.items ∙ first.items }

  -- One account's lock falls by its bid, and no other lock changes.
  unlock_bid-locks :
      (account b q : ℕ) (w : World L I)
      → (unlock_bid c account b w).0 ≡ ok tt
      → lock_of q (unlock_bid c account b w).1.store + (if q == account then b else 0)
        ≡ lock_of q w.store
  unlock_bid-locks account b q w e = elim (Option-cases (w.store.account_locks account)) [
    | inl none_held ↦ let no = rw none_held at e in cc
    | inr (held, f) ↦ elim (Bool-cases (leb b held)) [
      | inr less ↦ let no = rw (f, less) at e in cc
      | inl enough ↦ rw (f, enough) (ground (arith, f, enough))
    ]
  ]

  pub do_unlock_balance-locks :
      (i account q : ℕ) (w : World L I)
      → (do_unlock_balance c i account w).0 ≡ ok tt
      → lock_of q (do_unlock_balance c i account w).1.store
          + (if q == account then bid_of i account w.store else 0)
        ≡ lock_of q w.store
  unfolding do_unlock_balance
  do_unlock_balance-locks i account q w e = elim (Option-cases (w.store.auction_bids i account)) [
    | inl f ↦ rw (f, do_unlock_balance) (ground arith)
    | inr (b, f) ↦
        rw (f, do_unlock_balance) (unlock_bid-locks account b q w (rw (f, do_unlock_balance) at e))
  ]

  -- Where every participant is unlocked without an error, each account's lock has fallen by its bid
  -- on the auction if it is one of the participants, and is unchanged otherwise.
  pub unlock_all-locks :
      (i : ℕ) (participants : List ℕ) (w : World L I) (q : ℕ)
      → Distinct participants
      → (unlock_all c i participants w).0 ≡ ok tt
      → lock_of q (unlock_all c i participants w).1.store
          + (if contains q participants then bid_of i q w.store else 0)
        ≡ lock_of q w.store
  unfolding unlock_all
  unlock_all-locks i [] w q d e = ground arith
  unlock_all-locks i (p ∷ ps) w q d e =
      let (x, first, rest) =
        and_then-ok (do_unlock_balance c i p w) (λ _. unlock_all c i ps) tt e in
      let w' = (do_unlock_balance c i p w).1 in
      let kept = do_unlock_balance-Kept i p w in
      let after = unlock_all-locks i ps w' q d.1 (rw rest at e) in
      let before = do_unlock_balance-locks i p q w first in
      rw rest (ground (arith, after, before, d.0, ap (λ f. get_or (f i q) 0) kept.bids))

  -- An account that has bid and holds no lock cannot be unlocked, and no other's unlocking helps.
  do_unlock_balance-held :
      (i account q : ℕ) (w : World L I)
      → (do_unlock_balance c i account w).0 ≡ ok tt
      → w.store.account_locks q ≡ none
      → is_some (w.store.auction_bids i q) ≡ true
      → ((q == account) ≡ false)
        × ((do_unlock_balance c i account w).1.store.account_locks q ≡ none)
  unfolding do_unlock_balance
  do_unlock_balance-held i account q w e missing bid =
      elim (Option-cases (w.store.auction_bids i account)) [
        | inl f ↦ rw (f, do_unlock_balance) (ground (arith, f, missing, bid))
        | inr (b, f) ↦ elim (Option-cases (w.store.account_locks account)) [
          | inl none_held ↦ let no = rw (f, do_unlock_balance, none_held) at e in cc
          | inr (held, g) ↦ elim (Bool-cases (leb b held)) [
            | inr less ↦ let no = rw (f, do_unlock_balance, g, less) at e in cc
            | inl enough ↦ rw (f, do_unlock_balance, g, enough) (ground (arith, g, missing, enough))
          ]
        ]
      ]

  -- Where every participant is unlocked without an error, no participant with a bid on the auction
  -- lacked a lock: an account with a bid and no entry in `AccountLocks` is not among them.
  pub unlock_all-held :
      (i : ℕ) (participants : List ℕ) (w : World L I) (q : ℕ)
      → (unlock_all c i participants w).0 ≡ ok tt
      → w.store.account_locks q ≡ none
      → is_some (w.store.auction_bids i q) ≡ true
      → contains q participants ≡ false
  unfolding unlock_all
  unlock_all-held i [] w q e missing bid = refl
  unlock_all-held i (p ∷ ps) w q e missing bid =
      let (x, first, rest) =
        and_then-ok (do_unlock_balance c i p w) (λ _. unlock_all c i ps) tt e in
      let w' = (do_unlock_balance c i p w).1 in
      let held = do_unlock_balance-held i p q w first missing bid in
      let kept = do_unlock_balance-Kept i p w in
      let later =
        unlock_all-held i ps w' q (rw rest at e) held.1
          (ap (λ f. is_some (f i q)) kept.bids ∙ bid) in
      ground (arith, held.0, later)
