-- ===== src/Auction/Deliveries/Kept.antt =====
-- Calls of auction/mod.rs that leave the items alone.
use archer_in_zoo.Prelude.{
  ltb, ℕ, ◌≡◌, refl, sym, ap, ◌∙◌, true, false, Bool, Bool-cases, Option, none, some, inl, inr,
  arith,
}
use archer_in_zoo.Outcome.{
  Error, Action, and_then-cases, ensure, or_raise, modify, ◌>>=◌, bad_origin, should_be_item_owner,
}
use archer_in_zoo.System.{System}
use archer_in_zoo.Traits.{ItemTransfer}
use archer_in_zoo.Auction.Types.{active, pending_start}
use archer_in_zoo.Auction.Currency.{Currency, World, on_store, modify_store}
use archer_in_zoo.Auction.Store.{do_participate_auction, ensure_auction_with_status, put_auction}
use archer_in_zoo.Auction.Calls.{exceeds_latest, delta_of, signed, do_add_item, participate}
use archer_in_zoo.Auction.Funds.{bid_of, do_lock_balance}
use archer_in_zoo.Auction.Steps.Ensured.{ensure_auction-cases}

module _ {L I : Type 0} where
  -- A call that leaves the items alone, whatever it returns.
  abbrev pub KeepsItems : {A : Type 0} → Action (World L I) A → Type 0
  KeepsItems m = (w : World L I) → (m w).1.items ≡ w.items

  pub then-KeepsItems :
      {A B : Type 0} (m : Action (World L I) A) (f : A → Action (World L I) B)
      → KeepsItems m
      → ((a : A) → KeepsItems (f a))
      → KeepsItems (m >>= f)
  then-KeepsItems m f first rest w =
      and_then-cases (λ x. x.1.items ≡ w.items) (m w) f
        (λ e w1 q. sym (ap (λ x. x.1.items) q) ∙ first w)
        λ a w1 q. rest a w1 ∙ sym (ap (λ x. x.1.items) q) ∙ first w

  ensure-KeepsItems : (b : Bool) (e : Error) → KeepsItems (ensure b e)
  ensure-KeepsItems true e w = refl
  ensure-KeepsItems false e w = refl

  or_raise-KeepsItems : {A : Type 0} (x : Option A) (e : Error) → KeepsItems (or_raise x e)
  or_raise-KeepsItems none e w = refl
  or_raise-KeepsItems (some a) e w = refl

  module _ {Origin : Type 0} (sys : System Origin) (o : Origin) where
    pub signed-KeepsItems :
        {A : Type 0} (f : ℕ → Action (World L I) A)
        → ((sender : ℕ) → KeepsItems (f sender))
        → KeepsItems (signed sys o f)
    signed-KeepsItems f h =
        then-KeepsItems (or_raise (sys.ensure_signed o) bad_origin) f
          (or_raise-KeepsItems (sys.ensure_signed o) bad_origin) h

  module _ (c : Currency L) where
    do_lock_balance-KeepsItems :
        (auction account balance : ℕ) → KeepsItems (do_lock_balance c auction account balance)
    unfolding do_lock_balance
    do_lock_balance-KeepsItems auction account balance w = ground arith

    module _ (t : ItemTransfer I) where
      pub do_add_item-KeepsItems : (sender i item : ℕ) → KeepsItems (do_add_item c t sender i item)
      unfolding do_add_item
      do_add_item-KeepsItems sender i item w =
          then-KeepsItems (ensure (t.is_item_owner sender item w.items) should_be_item_owner)
            (λ _.
              on_store (ensure_auction_with_status i (some pending_start) (some sender)) >>= λ a.
              modify (modify_store (put_auction i (record a { item = some item }))))
            (ensure-KeepsItems _ _)
            (λ _.
              then-KeepsItems
                (on_store (ensure_auction_with_status i (some pending_start) (some sender)))
                (λ a. modify (modify_store (put_auction i (record a { item = some item }))))
                (λ w'. refl) (λ a w'. refl))
            w

      pub participate-KeepsItems :
          (last p i price : ℕ) → KeepsItems (participate c t last p i price)
      unfolding participate
      participate-KeepsItems last p i price w =
          elim (ensure_auction-cases i (some active) none w.store) [
            | inl (e, bad) ↦ rw bad refl
            | inr (a, g) ↦
                let delta = delta_of price (w.store.auction_bids a.id p) in
                elim (Bool-cases
                  (exceeds_latest price a (λ account. bid_of a.id account w.store))) [
                    | inr low ↦ rw (g.result, low) refl
                    | inl high ↦ elim (Bool-cases (ltb delta (c.free_balance w.ledger p))) [
                      | inr poor ↦ rw (g.result, high, poor) refl
                      | inl rich ↦
                          rw (g.result, high, rich)
                            (then-KeepsItems (do_lock_balance c i p delta)
                              (λ _. modify (modify_store (do_participate_auction last i p price)))
                              (do_lock_balance-KeepsItems i p delta) (λ _ w'. refl) w)
                    ]
                  ]
          ]
