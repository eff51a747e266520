-- ===== src/Auction/Accounts/Histories.antt =====
-- The locks over histories of calls.
use archer_in_zoo.Prelude.{
  ℕ, ◌≡◌, refl, Bool, true, ◌&&◌, List, [], ◌∷◌, arith, Option-cases, inl, inr, ltb,
}
use archer_in_zoo.Outcome.{Result, and_then, pure, ok, err, should_be_non_stopped}
use archer_in_zoo.System.{System}
use archer_in_zoo.Words.{balance_mod}
use archer_in_zoo.Traits.{ItemTransfer}
use archer_in_zoo.Auction.Types.{stopped, active_vec}
use archer_in_zoo.Auction.Currency.{Currency, World}
use archer_in_zoo.Auction.Calls.{do_stop_auction, stop_auction, participate_auction}
use archer_in_zoo.Auction.Passive.{Keys, Aura, stop_auctions_passive}
use archer_in_zoo.Auction.Dispatch.{
  Call, create_call, add_item_call, setup_call, pause_call, resume_call, stop_call,
  participate_call, start_passive_call, stop_passive_call, dispatch, run,
}
use archer_in_zoo.Auction.Validation.{is_ok}
use archer_in_zoo.Auction.Steps.{unqueues, quietly}
use archer_in_zoo.Auction.Steps.Ensured.{admitted-cases}
use archer_in_zoo.Auction.Steps.Signed.{
  create_auction-Calm, add_item-Calm, setup_moments-Calm, pause_auction-Calm, resume_auction-Calm,
}
use archer_in_zoo.Auction.Steps.Unsigned.{start_auctions_passive-Calm}
use archer_in_zoo.Auction.Accounts.{Accounted}
use archer_in_zoo.Auction.Accounts.Quiet.{Calm-Accounted}
use archer_in_zoo.Auction.Accounts.Bids.{participate-Accounted}
use archer_in_zoo.Auction.Accounts.Sweeps.{
  no_repeats, and_both, stop_each-Accounted, do_stop_auction-Accounted,
}

done_pure :
    {S : Type 0} (x : Result (Unit {0}) × S)
    → is_ok (and_then x (λ _. pure tt)).0 ≡ true
    → (x.0 ≡ ok tt) × ((and_then x (λ _. pure tt)).1 ≡ x.1)
done_pure (ok a, s) e = (refl, refl)
done_pure (err e', s) e = cc

module _ {L I : Type 0} (c : Currency L) (t : ItemTransfer I) where
  module _ {Signature Origin : Type 0} (k : Keys Signature) (sys : System Origin) where
    -- What the accounting asks of a call: a bid is above 0 and a balance, a list to stop names no
    -- auction twice, and an owner's stop succeeds.
    abbrev pub is_careful : Aura → Origin → Call Signature → World L I → Bool
    is_careful aura o (participate_call i price) w = ltb 0 price && ltb price balance_mod
    is_careful aura o (stop_passive_call is sig) w = no_repeats is
    is_careful aura o (stop_call i) w = is_ok (dispatch c t k sys aura o (stop_call i) w).0
    is_careful aura o (create_call p m u) w = true
    is_careful aura o (add_item_call i item) w = true
    is_careful aura o (setup_call i b e p) w = true
    is_careful aura o (pause_call i) w = true
    is_careful aura o (resume_call i) w = true
    is_careful aura o (start_passive_call is sig) w = true

    -- Every call of a history is careful in the world that it meets.
    abbrev pub all_careful :
        List (Aura × Origin × Call Signature × (L × I → L × I)) → World L I → Bool
    all_careful [] w = true
    all_careful ((aura, o, call, between) ∷ rest) w =
        let w' = (dispatch c t k sys aura o call w).1 in
        let (l, i) = between (w'.ledger, w'.items) in
        is_careful aura o call w && all_careful rest (record w' { ledger = l; items = i })

    stop_auctions_passive-Accounted :
        (aura : Aura) (o : Origin) (is : List ℕ) (sig : Signature) (w : World L I)
        → no_repeats is ≡ true
        → Accounted w.store
        → Accounted (stop_auctions_passive c t k sys aura o is sig w).1.store
    unfolding stop_auctions_passive
    stop_auctions_passive-Accounted aura o is sig w d h =
        elim (admitted-cases k sys aura o is sig stopped true should_be_non_stopped w) [
          | inl (e, bad) ↦ rw bad h
          | inr g ↦ rw g.result (
              Calm-Accounted (quietly (unqueues active_vec is) refl)
                (stop_each-Accounted c t is w d g.has_status h))
        ]

    stop_auction-Accounted :
        (o : Origin) (i : ℕ) (w : World L I)
        → is_ok (stop_auction c t sys o i w).0 ≡ true
        → Accounted w.store
        → Accounted (stop_auction c t sys o i w).1.store
    unfolding stop_auction
    stop_auction-Accounted o i w e h = elim (Option-cases (sys.ensure_signed o)) [
      | inl none_signed ↦ rw none_signed h
      | inr (owner, signed) ↦
          let q = done_pure (do_stop_auction c t owner i w) (rw signed at e) in
          rw (signed, q.1) (do_stop_auction-Accounted c t owner i w h q.0)
    ]

    participate_auction-Accounted :
        (aura : Aura) (o : Origin) (i price : ℕ) (w : World L I)
        → (ltb 0 price && ltb price balance_mod) ≡ true
        → Accounted w.store
        → Accounted (participate_auction c t sys o aura.last i price w).1.store
    unfolding participate_auction
    participate_auction-Accounted aura o i price w e h = elim (Option-cases (sys.ensure_signed o)) [
      | inl none_signed ↦ rw none_signed h
      | inr (p, signed) ↦ rw signed (
          participate-Accounted c t aura.last p i price w h (ground (arith, e)) (ground (arith, e)))
    ]

    pub dispatch-Accounted :
        (aura : Aura) (o : Origin) (call : Call Signature) (w : World L I)
        → is_careful aura o call w ≡ true
        → Accounted w.store
        → Accounted (dispatch c t k sys aura o call w).1.store
    unfolding dispatch
    dispatch-Accounted aura o (create_call p m u) w e h =
        Calm-Accounted (create_auction-Calm c t sys o p m u w) h
    dispatch-Accounted aura o (add_item_call i item) w e h =
        Calm-Accounted (add_item-Calm c t sys o i item w) h
    dispatch-Accounted aura o (setup_call i b e' p) w e h =
        Calm-Accounted (setup_moments-Calm c t sys o i b e' p w) h
    dispatch-Accounted aura o (pause_call i) w e h =
        Calm-Accounted (pause_auction-Calm c t sys o i w) h
    dispatch-Accounted aura o (resume_call i) w e h =
        Calm-Accounted (resume_auction-Calm c t sys o i w) h
    dispatch-Accounted aura o (stop_call i) w e h = stop_auction-Accounted o i w e h
    dispatch-Accounted aura o (participate_call i price) w e h =
        participate_auction-Accounted aura o i price w e h
    dispatch-Accounted aura o (start_passive_call is sig) w e h =
        Calm-Accounted (start_auctions_passive-Calm c t k sys aura o is sig w) h
    dispatch-Accounted aura o (stop_passive_call is sig) w e h =
        stop_auctions_passive-Accounted aura o is sig w e h

    -- Over a history of careful calls, each account's lock stays the sum of its bids on the auctions
    -- that are not stopped: where bids are above 0 and balances, no list to stop names an auction twice,
    -- and no owner's stop fails. What happens to the ledger and the items between the calls does not
    -- matter, nor does whether the payments of the worker's stops succeed.
    pub run-Accounted :
        (calls : List (Aura × Origin × Call Signature × (L × I → L × I))) (w : World L I)
        → all_careful calls w ≡ true
        → Accounted w.store
        → Accounted (run c t k sys calls w).store
    unfolding run
    run-Accounted [] w e h = h
    run-Accounted ((aura, o, call, between) ∷ rest) w e h =
        let w' = (dispatch c t k sys aura o call w).1 in
        let out = between (w'.ledger, w'.items) in
        let next = record w' { ledger = out.0; items = out.1 } in
        let (one, others) = and_both (is_careful aura o call w) (all_careful rest next) e in
        run-Accounted rest next others (dispatch-Accounted aura o call w one h)
