-- ===== src/Auction/Calls.antt =====
-- The signed calls of auction/mod.rs.
use archer_in_zoo.Prelude.{ℕ, Bool, true, false, not, Option, none, some, [], ◌∷◌, ltb}
use archer_in_zoo.Outcome.{
  ok, Action, pure, gets, or_raise, modify, ensure, ◌>>=◌, ◌>>◌, bad_origin, should_be_item_owner,
  cannot_be_stopped_now, increment_too_small, not_enough_balance_to_lock,
}
use archer_in_zoo.System.{System}
use archer_in_zoo.Words.{wrapping_add, wrapping_sub, balance_mod}
use archer_in_zoo.Traits.{ItemTransfer}
use archer_in_zoo.Auction.Types.{pending_start, active, stopped, same_status, Auction, active_vec}
use archer_in_zoo.Auction.Currency.{Currency, World, on_store, modify_store}
use archer_in_zoo.Auction.Store.{
  ensure_auction_with_status, put_auction, do_create_auction, do_setup_moments, do_pause_auction,
  do_resume_auction, do_participate_auction, change_auction_status, remove_all_from_set,
}
use archer_in_zoo.Auction.Funds.{do_lock_balance, do_settle_auction, bid_of}

-- What a bid must exceed: the latest bid and the step, or nothing where there is no bid yet.
abbrev pub exceeds_latest : (price : ℕ) → Auction → (bid_price : ℕ → ℕ) → Bool
exceeds_latest price a bid_price = elim a.latest_participate [
  | none ↦ true
  | some (account, moment) ↦ ltb (wrapping_add balance_mod (bid_price account) a.minimum_step) price
]

-- What a bid adds to the participant's earlier bid.
abbrev pub delta_of : (price : ℕ) → (prev_bid : Option ℕ) → ℕ
delta_of price none = price
delta_of price (some prev_bid) = wrapping_sub balance_mod price prev_bid

-- `ensure_signed(origin)?`, and what the signer's call does.
module _ {L I Origin : Type 0} (sys : System Origin) (origin : Origin) where
  abbrev pub signed : {A : Type 0} → (ℕ → Action (World L I) A) → Action (World L I) A
  signed f = or_raise (sys.ensure_signed origin) bad_origin >>= f

module _ {L I : Type 0} (c : Currency L) (t : ItemTransfer I) where
  unfoldable pub do_add_item : (sender auction_id item : ℕ) → Action (World L I) (Unit {0})
  unfolding ensure_auction_with_status
  do_add_item sender auction_id item = do
    ensure (← gets (λ w. t.is_item_owner sender item w.items)) should_be_item_owner
    a ← on_store (ensure_auction_with_status auction_id (some pending_start) (some sender))
    modify (modify_store (put_auction auction_id (record a { item = some item })))

  -- The settlement of `do_stop_auction` and the passive stop, for an auction that has started.
  unfoldable pub settle_if_started : Auction → Action (World L I) (Unit {0})
  settle_if_started a w = elim (same_status a.status pending_start) [
    | true ↦ (ok tt, w)
    | false ↦ do_settle_auction c t a w
  ]

  unfoldable pub do_stop_auction : (owner auction_id : ℕ) → Action (World L I) (Unit {0})
  unfolding ensure_auction_with_status settle_if_started change_auction_status remove_all_from_set
  do_stop_auction owner auction_id = do
    a ← on_store (ensure_auction_with_status auction_id none (some owner))
    ensure (not (same_status a.status stopped)) cannot_be_stopped_now
    settle_if_started a
    modify (modify_store (change_auction_status auction_id a.status stopped))
    modify (modify_store (remove_all_from_set active_vec (auction_id ∷ [])))

  -- `participate_auction` after its origin is checked.
  unfoldable pub participate :
      (last participant auction_id price : ℕ) → Action (World L I) (Unit {0})
  unfolding ensure_auction_with_status do_lock_balance do_participate_auction
  participate last participant auction_id price = do
    a ← on_store (ensure_auction_with_status auction_id (some active) none)
    ensure (← gets (λ w. exceeds_latest price a (λ account. bid_of a.id account w.store)))
        increment_too_small
    prev_bid ← gets (λ w. w.store.auction_bids a.id participant)
    let delta_price = delta_of price prev_bid
    ensure (← gets (λ w. ltb delta_price (c.free_balance w.ledger participant)))
        not_enough_balance_to_lock
    do_lock_balance c auction_id participant delta_price
    modify (modify_store (do_participate_auction last auction_id participant price))

  module _ {Origin : Type 0} (sys : System Origin) (origin : Origin) where
    unfoldable pub create_auction :
        (begin_price minimum_step : ℕ)
        → (upper_bound_price : Option ℕ) → Action (World L I) (Unit {0})
    unfolding do_create_auction
    create_auction begin_price minimum_step upper_bound_price = signed sys origin λ sender. do
      on_store (do_create_auction sender begin_price minimum_step upper_bound_price)
      pure tt

    unfoldable pub add_item : (auction_id item : ℕ) → Action (World L I) (Unit {0})
    unfolding do_add_item
    add_item auction_id item = signed sys origin λ sender. do_add_item sender auction_id item

    unfoldable pub setup_moments :
        (auction_id : ℕ) → (start_at stop_at wait_period : Option ℕ) → Action (World L I) (Unit {0})
    unfolding do_setup_moments
    setup_moments auction_id start_at stop_at wait_period =
        signed sys origin
          λ sender. on_store (do_setup_moments sender auction_id start_at stop_at wait_period)

    unfoldable pub pause_auction : (auction_id : ℕ) → Action (World L I) (Unit {0})
    unfolding do_pause_auction
    pause_auction auction_id =
        signed sys origin λ sender. on_store (do_pause_auction sender auction_id)

    unfoldable pub resume_auction : (auction_id : ℕ) → Action (World L I) (Unit {0})
    unfolding do_resume_auction
    resume_auction auction_id =
        signed sys origin λ sender. on_store (do_resume_auction sender auction_id)

    unfoldable pub stop_auction : (auction_id : ℕ) → Action (World L I) (Unit {0})
    unfolding do_stop_auction
    stop_auction auction_id =
        signed sys origin λ sender. do do_stop_auction sender auction_id; pure tt

    -- `last` is the time that the chain has reached.
    unfoldable pub participate_auction : (last auction_id price : ℕ) → Action (World L I) (Unit {0})
    unfolding participate
    participate_auction last auction_id price =
        signed sys origin λ participant. participate last participant auction_id price
