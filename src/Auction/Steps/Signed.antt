-- ===== src/Auction/Steps/Signed.antt =====
-- The signed calls as sequences of writes.
use archer_in_zoo.Prelude.{
  ℕ, ◌≡◌, refl, sym, ◌∙◌, Option, none, some, [], ◌∷◌, Bool-cases, Option-cases, inl, inr, ltb,
}
use archer_in_zoo.Outcome.{
  Result, ok, err, Action, and_then, ◌>>◌, modify, ensure, not_enough_balance_to_lock, pure,
}
use archer_in_zoo.System.{System}
use archer_in_zoo.Traits.{ItemTransfer}
use archer_in_zoo.Auction.Types.{
  Auction, Store, pending_start, active, stopped, same_status, active_vec,
}
use archer_in_zoo.Auction.Currency.{Currency, World, modify_store, on_store}
use archer_in_zoo.Auction.Store.{
  do_create_auction, change_auction_status, remove_all_from_set, do_participate_auction,
}
use mathlib.Core.Path.{ap}
use archer_in_zoo.Auction.Calls.{
  signed, settle_if_started, do_add_item, do_stop_auction, participate, create_auction, add_item,
  setup_moments, pause_auction, resume_auction, stop_auction, participate_auction, exceeds_latest,
  delta_of,
}
use archer_in_zoo.Auction.Funds.{do_lock_balance, bid_of}
use archer_in_zoo.Auction.Steps.{
  Calm, still, moves, bids, unqueues, Reach, here, next, one, Reach-trans,
}
use archer_in_zoo.Auction.Steps.Ensured.{Ensured, ensure_auction-cases}
use archer_in_zoo.Auction.Steps.Funds.{
  OnlyFunds, do_lock_balance-OnlyFunds, settle_if_started-OnlyFunds,
}
use archer_in_zoo.Auction.Steps.Owned.{
  OnlyFunds-Reach, can_move-stopped, do_create_auction-Calm, planned-Calm, do_setup_moments-Calm,
  do_pause_auction-Calm, do_resume_auction-Calm,
}

module _ {L I : Type 0} (c : Currency L) (t : ItemTransfer I) where
  do_add_item-Calm :
      (sender i item : ℕ) (w : World L I) → Calm w.store (do_add_item c t sender i item w).1.store
  unfolding do_add_item
  do_add_item-Calm sender i item w = elim (Bool-cases (t.is_item_owner sender item w.items)) [
    | inr foreign ↦ rw foreign still
    | inl mine ↦ rw mine (elim (ensure_auction-cases i (some pending_start) (some sender) w.store) [
      | inl (x, bad) ↦ rw bad still
      | inr (a, good) ↦ rw good.result (
          planned-Calm i a (some item) a.start_at a.stop_at a.wait_period w.store good.found
            good.has_status)
    ])
  ]

  and_then-Reach :
      {A B : Type 0} (s : Store) (x : Result A × World L I) (f : A → Action (World L I) B)
      → Reach s x.1.store
      → ((a : A) (w' : World L I) → x ≡ (ok a, w') → Reach w'.store (f a w').1.store)
      → Reach s (and_then x f).1.store
  and_then-Reach s (ok a, w') f p rest = Reach-trans p (rest a w' refl)
  and_then-Reach s (err e, w') f p rest = p

  and_then-Calm :
      {A B : Type 0} (s : Store) (x : Result A × World L I) (f : A → Action (World L I) B)
      → Calm s x.1.store
      → ((a : A) (w' : World L I) → Calm s w'.store → Calm s (f a w').1.store)
      → Calm s (and_then x f).1.store
  and_then-Calm s (ok a, w') f p rest = rest a w' p
  and_then-Calm s (err e, w') f p rest = p

  -- Changes of locks and bids leave every auction as it is.
  pub kept_auction :
      {A : Type 0} (i : ℕ) (a : Auction) (w w' : World L I) (x : Result A × World L I)
      (r : Result A)
      → OnlyFunds w.store x.1.store
      → x ≡ (r, w')
      → w.store.auctions i ≡ some a
      → w'.store.auctions i ≡ some a
  kept_auction i a w w' x r only e found =
      sym (ap (λ y. y.1.store.auctions i) e) ∙ ap (λ s. s.auctions i) only ∙ found

  -- A bid that is high enough.
  participate_paid :
      (last p i price : ℕ) (a : Auction) (w : World L I)
      → Ensured i (some active) none w.store a
      → Reach w.store
          (and_then
            (ensure
              (ltb (delta_of price (w.store.auction_bids a.id p)) (c.free_balance w.ledger p))
              not_enough_balance_to_lock
              w)
            (λ _.
              do_lock_balance c i p (delta_of price (w.store.auction_bids a.id p))
              >> modify (modify_store (do_participate_auction last i p price)))).1.store
  participate_paid last p i price a w good =
      let delta = delta_of price (w.store.auction_bids a.id p) in
      elim (Bool-cases (ltb delta (c.free_balance w.ledger p))) [
        | inr short ↦ rw short here
        | inl covered ↦ rw covered (
            and_then-Reach w.store (do_lock_balance c i p delta w)
              (λ _. modify (modify_store (do_participate_auction last i p price)))
              (OnlyFunds-Reach _ _ (do_lock_balance-OnlyFunds c i p delta w))
              λ x w' e. one (
                bids last i p price a
                  (kept_auction i a w w' _ _ (do_lock_balance-OnlyFunds c i p delta w) e good.found)
                  good.has_status))
      ]

  pub do_stop_auction-Reach :
      (owner i : ℕ) (w : World L I) → Reach w.store (do_stop_auction c t owner i w).1.store
  unfolding do_stop_auction
  do_stop_auction-Reach owner i w = elim (ensure_auction-cases i none (some owner) w.store) [
    | inl (x, bad) ↦ rw bad here
    | inr (a, good) ↦ rw good.result (elim (Bool-cases (same_status a.status stopped)) [
      | inl over ↦ rw over here
      | inr live ↦ rw live (
          and_then-Reach w.store (settle_if_started c t a w)
            (λ _.
              modify (modify_store (change_auction_status i a.status stopped))
              >> modify (modify_store (remove_all_from_set active_vec (i ∷ []))))
            (OnlyFunds-Reach _ _ (settle_if_started-OnlyFunds c t a w))
            λ _ w' e.
              next
                (one (
                  moves i a a.status stopped
                    (kept_auction i a w w' _ _ (settle_if_started-OnlyFunds c t a w) e good.found)
                    (can_move-stopped a.status)))
                (unqueues active_vec (i ∷ [])))
    ])
  ]

  pub participate-Reach :
      (last p i price : ℕ) (w : World L I)
      → Reach w.store (participate c t last p i price w).1.store
  unfolding participate
  participate-Reach last p i price w = elim (ensure_auction-cases i (some active) none w.store) [
    | inl (x, bad) ↦ rw bad here
    | inr (a, good) ↦
        rw good.result
          (elim (Bool-cases (exceeds_latest price a (λ account. bid_of a.id account w.store))) [
            | inr low ↦ rw low here
            | inl high ↦ rw high (participate_paid last p i price a w good)
          ])
  ]

  module _ {Origin : Type 0} (sys : System Origin) (o : Origin) where
    signed-Reach :
        {A : Type 0} (f : ℕ → Action (World L I) A) (w : World L I)
        → ((sender : ℕ) → Reach w.store (f sender w).1.store)
        → Reach w.store (signed sys o f w).1.store
    signed-Reach f w h = elim (Option-cases (sys.ensure_signed o)) [
      | inl e ↦ rw e here
      | inr (sender, e) ↦ rw e (h sender)
    ]

    signed-Calm :
        {A : Type 0} (f : ℕ → Action (World L I) A) (w : World L I)
        → ((sender : ℕ) → Calm w.store (f sender w).1.store)
        → Calm w.store (signed sys o f w).1.store
    signed-Calm f w h = elim (Option-cases (sys.ensure_signed o)) [
      | inl e ↦ rw e still
      | inr (sender, e) ↦ rw e (h sender)
    ]

    pub create_auction-Calm :
        (p m : ℕ) (u : Option ℕ) (w : World L I)
        → Calm w.store (create_auction c t sys o p m u w).1.store
    unfolding create_auction
    create_auction-Calm p m u w = signed-Calm _ w λ sender.
        and_then-Calm w.store (on_store (do_create_auction sender p m u) w) (λ _. pure tt)
          (do_create_auction-Calm sender p m u w.store) λ _ w' e. e

    pub add_item-Calm :
        (i item : ℕ) (w : World L I) → Calm w.store (add_item c t sys o i item w).1.store
    unfolding add_item
    add_item-Calm i item w = signed-Calm _ w λ sender. do_add_item-Calm sender i item w

    pub setup_moments-Calm :
        (i : ℕ) (b e p : Option ℕ) (w : World L I)
        → Calm w.store (setup_moments c t sys o i b e p w).1.store
    unfolding setup_moments
    setup_moments-Calm i b e p w =
        signed-Calm _ w λ sender. do_setup_moments-Calm sender i b e p w.store

    pub pause_auction-Calm :
        (i : ℕ) (w : World L I) → Calm w.store (pause_auction c t sys o i w).1.store
    unfolding pause_auction
    pause_auction-Calm i w = signed-Calm _ w λ sender. do_pause_auction-Calm sender i w.store

    pub resume_auction-Calm :
        (i : ℕ) (w : World L I) → Calm w.store (resume_auction c t sys o i w).1.store
    unfolding resume_auction
    resume_auction-Calm i w = signed-Calm _ w λ sender. do_resume_auction-Calm sender i w.store

    pub stop_auction-Reach :
        (i : ℕ) (w : World L I) → Reach w.store (stop_auction c t sys o i w).1.store
    unfolding stop_auction
    stop_auction-Reach i w = signed-Reach _ w λ sender.
        and_then-Reach w.store (do_stop_auction c t sender i w) (λ _. pure tt)
          (do_stop_auction-Reach sender i w) λ _ w' e. here

    pub participate_auction-Reach :
        (last i price : ℕ) (w : World L I)
        → Reach w.store (participate_auction c t sys o last i price w).1.store
    unfolding participate_auction
    participate_auction-Reach last i price w =
        signed-Reach _ w λ sender. participate-Reach last sender i price w
