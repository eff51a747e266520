-- ===== src/Auction/Steps/Unsigned.antt =====
-- The passive calls, and then every call of the module, as sequences of writes.
use archer_in_zoo.Prelude.{
  ℕ, ◌≡◌, refl, true, false, some, List, [], ◌∷◌, arith, ◌==◌, Bool-cases, Option-cases, inl, inr,
}
use archer_in_zoo.Outcome.{should_be_pending_start, should_be_non_stopped}
use archer_in_zoo.System.{System}
use archer_in_zoo.Traits.{ItemTransfer}
use archer_in_zoo.Auction.Types.{
  Auction, Store, AuctionStatus, pending_start, active, stopped, pending_vec, active_vec,
}
use archer_in_zoo.Auction.Currency.{Currency, World}
use archer_in_zoo.Auction.Store.{has_status, is_auctions_with_status, change_auction_status}
use archer_in_zoo.Auction.Calls.{settle_if_started}
use archer_in_zoo.Auction.Passive.{
  Keys, Aura, start_each, stop_one, stop_each, start_auctions_passive, stop_auctions_passive,
}
use archer_in_zoo.Auction.Dispatch.{
  Call, create_call, add_item_call, setup_call, pause_call, resume_call, stop_call,
  participate_call, start_passive_call, stop_passive_call, dispatch, run,
}
use archer_in_zoo.Auction.Steps.{
  Calm, still, after, quietly, Calm-trans, Calm-Reach, moves, queues, unqueues, Reach, here, next,
  one, Reach-trans, can_move,
}
use archer_in_zoo.Auction.Steps.Ensured.{admitted-cases, same_status_iff}
use archer_in_zoo.Auction.Steps.Funds.{settle_if_started-OnlyFunds}
use archer_in_zoo.Auction.Steps.Owned.{OnlyFunds-Reach, can_move-stopped}
use archer_in_zoo.Auction.Steps.Signed.{
  kept_auction, create_auction-Calm, add_item-Calm, setup_moments-Calm, pause_auction-Calm,
  resume_auction-Calm, stop_auction-Reach, participate_auction-Reach,
}

-- Each id names an auction that may become active.
abbrev Ready : List ℕ → Store → Type 0
Ready [] s = Unit
Ready (i ∷ is) s =
    ((a : Auction) × (s.auctions i ≡ some a) × (can_move a.status active ≡ true)) × Ready is s

is_auctions_with_status-Ready :
    (ids : List ℕ) (s : Store)
    → is_auctions_with_status ids pending_start false s ≡ true
    → Ready ids s
unfolding is_auctions_with_status has_status
is_auctions_with_status-Ready [] s h = tt
is_auctions_with_status-Ready (i ∷ is) s h = elim (Option-cases (s.auctions i)) [
  | inl e ↦ absurd (ground (arith, e))
  | inr (a, e) ↦
      let pending : a.status ≡ pending_start =
        same_status_iff a.status pending_start (ground (arith, e)) in
      ((a, e, rw pending refl), is_auctions_with_status-Ready is s (ground (arith, e)))
]

Ready-change :
    (is : List ℕ) (s : Store) (i : ℕ) (a : Auction) (old : AuctionStatus)
    → s.auctions i ≡ some a
    → Ready is s
    → Ready is (change_auction_status i old active s)
unfolding change_auction_status
Ready-change [] s i a old e h = tt
Ready-change (j ∷ js) s i a old e ((b, f, m), h) =
    let rest = Ready-change js s i a old e h in
    elim (Bool-cases (j == i)) [
      | inl same ↦ ((record a { status = active }, rw (same, e) refl, refl), rest)
      | inr other ↦ ((b, rw other f, m), rest)
    ]

start_each-Calm : (ids : List ℕ) (s : Store) → Ready ids s → Calm s (start_each ids s)
unfolding start_each
start_each-Calm [] s h = still
start_each-Calm (i ∷ is) s ((a, e, m), h) =
    Calm-trans (quietly (moves i a pending_start active e m) refl) (
      start_each-Calm is (change_auction_status i pending_start active s)
        (Ready-change is s i a pending_start e h))

module _ {L I : Type 0} (c : Currency L) (t : ItemTransfer I) where
  pub stop_one-Reach : (i : ℕ) (w : World L I) → Reach w.store (stop_one c t i w).store
  unfolding stop_one
  stop_one-Reach i w = elim (Option-cases (w.store.auctions i)) [
    | inl e ↦ rw (e, stop_one) here
    | inr (a, e) ↦
        let only = settle_if_started-OnlyFunds c t a w in
        rw (e, stop_one)
          (Reach-trans (OnlyFunds-Reach _ _ only) (
            one (
              moves i a a.status stopped
                (kept_auction c t i a w (settle_if_started c t a w).1 (settle_if_started c t a w)
                  (settle_if_started c t a w).0 only refl e)
                (can_move-stopped a.status))))
  ]

  stop_each-Reach : (ids : List ℕ) (w : World L I) → Reach w.store (stop_each c t ids w).store
  unfolding stop_each
  stop_each-Reach [] w = here
  stop_each-Reach (i ∷ is) w =
      Reach-trans (stop_one-Reach i w) (stop_each-Reach is (stop_one c t i w))

  module _ {Signature Origin : Type 0} (k : Keys Signature) (sys : System Origin) (aura : Aura)
      (o : Origin) where
    pub start_auctions_passive-Calm :
        (ids : List ℕ) (sig : Signature) (w : World L I)
        → Calm w.store (start_auctions_passive c t k sys aura o ids sig w).1.store
    unfolding start_auctions_passive
    start_auctions_passive-Calm ids sig w =
        elim (admitted-cases k sys aura o ids sig pending_start false should_be_pending_start w) [
          | inl (e, bad) ↦ rw bad still
          | inr good ↦ rw good.result (
              after
                (after
                  (start_each-Calm ids w.store
                    (is_auctions_with_status-Ready ids w.store good.has_status))
                  (unqueues pending_vec ids) refl)
                (queues active_vec ids) refl)
        ]

    pub stop_auctions_passive-Reach :
        (ids : List ℕ) (sig : Signature) (w : World L I)
        → Reach w.store (stop_auctions_passive c t k sys aura o ids sig w).1.store
    unfolding stop_auctions_passive
    stop_auctions_passive-Reach ids sig w =
        elim (admitted-cases k sys aura o ids sig stopped true should_be_non_stopped w) [
          | inl (e, bad) ↦ rw bad here
          | inr good ↦ rw good.result (next (stop_each-Reach ids w) (unqueues active_vec ids))
        ]

  -- Every call, with every outcome, is a sequence of writes to the storage.
  pub dispatch-Reach :
      {Signature Origin : Type 0} (k : Keys Signature) (sys : System Origin) (aura : Aura)
      (o : Origin) (call : Call Signature) (w : World L I)
      → Reach w.store (dispatch c t k sys aura o call w).1.store
  unfolding dispatch
  dispatch-Reach k sys aura o (create_call p m u) w =
      Calm-Reach (create_auction-Calm c t sys o p m u w)
  dispatch-Reach k sys aura o (add_item_call i item) w =
      Calm-Reach (add_item-Calm c t sys o i item w)
  dispatch-Reach k sys aura o (setup_call i b e p) w =
      Calm-Reach (setup_moments-Calm c t sys o i b e p w)
  dispatch-Reach k sys aura o (pause_call i) w = Calm-Reach (pause_auction-Calm c t sys o i w)
  dispatch-Reach k sys aura o (resume_call i) w = Calm-Reach (resume_auction-Calm c t sys o i w)
  dispatch-Reach k sys aura o (stop_call i) w = stop_auction-Reach c t sys o i w
  dispatch-Reach k sys aura o (participate_call i price) w =
      participate_auction-Reach c t sys o aura.last i price w
  dispatch-Reach k sys aura o (start_passive_call is sig) w =
      Calm-Reach (start_auctions_passive-Calm k sys aura o is sig w)
  dispatch-Reach k sys aura o (stop_passive_call is sig) w =
      stop_auctions_passive-Reach k sys aura o is sig w

  -- And so is every history.
  pub run-Reach :
      {Signature Origin : Type 0} (k : Keys Signature) (sys : System Origin)
      (calls : List (Aura × Origin × Call Signature × (L × I → L × I))) (w : World L I)
      → Reach w.store (run c t k sys calls w).store
  unfolding run
  run-Reach k sys [] w = here
  run-Reach k sys ((aura, o, call, between) ∷ rest) w =
      let w' = (dispatch c t k sys aura o call w).1 in
      let out = between (w'.ledger, w'.items) in
      Reach-trans (dispatch-Reach k sys aura o call w)
        (run-Reach k sys rest (record w' { ledger = out.0; items = out.1 }))
