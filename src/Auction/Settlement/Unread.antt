-- ===== src/Auction/Settlement/Unread.antt =====
-- What reads an account of the ledger, and is left by locks, is left by `do_unlock_balance` too.
use archer_in_zoo.Prelude.{
  ℕ, ◌-◌, ◌≡◌, refl, ap, ◌∙◌, List, [], ◌∷◌, ◌==◌, Bool-cases, Option-cases, inl, inr, leb,
}
use archer_in_zoo.Outcome.{and_then-cases}
use archer_in_zoo.Auction.Types.{auction_id_lock}
use archer_in_zoo.Auction.Currency.{Currency, World}
use archer_in_zoo.Auction.Funds.{do_unlock_balance, unlock_bid, unlock_all}

module _ {L I : Type 0} (c : Currency L) (read : L → (account : ℕ) → ℕ)
    (set_lock_read : (id : List ℕ) (account amount q : ℕ) (l : L)
      → read (c.set_lock id account amount l) q ≡ read l q)
    (remove_lock_read : (id : List ℕ) (account q : ℕ) (l : L)
      → read (c.remove_lock id account l) q ≡ read l q) where
  -- Every account reads the same.
  abbrev SameRead : World L I → World L I → Type 0
  SameRead w w' = (q : ℕ) → read w'.ledger q ≡ read w.ledger q

  unlock_bid-SameRead : (account b : ℕ) (w : World L I) → SameRead w (unlock_bid c account b w).1
  unlock_bid-SameRead account b w q = elim (Option-cases (w.store.account_locks account)) [
    | inl e ↦ rw e refl
    | inr (held, e) ↦ elim (Bool-cases (leb b held)) [
      | inr less ↦ rw (e, less) refl
      | inl enough ↦ elim (Bool-cases (held - b == 0)) [
        | inl empty ↦ rw (e, enough, empty) (remove_lock_read auction_id_lock account q w.ledger)
        | inr left ↦
            rw (e, enough, left) (set_lock_read auction_id_lock account (held - b) q w.ledger)
      ]
    ]
  ]

  do_unlock_balance-SameRead :
      (i account : ℕ) (w : World L I) → SameRead w (do_unlock_balance c i account w).1
  unfolding do_unlock_balance
  do_unlock_balance-SameRead i account w q = elim (Option-cases (w.store.auction_bids i account)) [
    | inl e ↦ rw (e, do_unlock_balance) refl
    | inr (b, e) ↦ rw (e, do_unlock_balance) (unlock_bid-SameRead account b w q)
  ]

  pub unlock_all-SameRead :
      (i : ℕ) (ps : List ℕ) (w : World L I) (q : ℕ)
      → read (unlock_all c i ps w).1.ledger q ≡ read w.ledger q
  unfolding unlock_all
  unlock_all-SameRead i [] w q = refl
  unlock_all-SameRead i (p ∷ ps) w q =
      let first = do_unlock_balance-SameRead i p w q in
      and_then-cases (λ x. read x.1.ledger q ≡ read w.ledger q) (do_unlock_balance c i p w)
        (λ _. unlock_all c i ps) (λ e w1 r. rw (ap (λ x. x.1) r) at first)
        λ _ w1 r. unlock_all-SameRead i ps w1 q ∙ (rw (ap (λ x. x.1) r) at first)
