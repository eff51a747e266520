-- ===== src/Auction/Settlement/Stop.antt =====
-- `do_stop_auction` from its checks to the released locks.
use archer_in_zoo.Prelude.{
  ℕ, ◌+◌, ◌≡◌, ◌≢◌, refl, ap, ◌∙◌, none, some, List, [], ◌∷◌, ◌==◌, arith, if◌then◌else◌,
  Bool-cases, Option-cases, inl, inr, get_or, contains, Distinct,
}
use archer_in_zoo.Outcome.{Result, ok, err, Action, modify, and_then, and_then-ok, ◌>>◌}
use archer_in_zoo.Traits.{ItemTransfer}
use archer_in_zoo.Auction.Types.{active_vec, Auction, Store, pending_start, stopped, same_status}
use archer_in_zoo.Auction.Currency.{
  Currency, World, on_ledger, on_items, modify_ledger, modify_store,
}
use archer_in_zoo.Auction.Store.{change_auction_status, remove_all_from_set}
use archer_in_zoo.Auction.Funds.{
  unlock_all, lock_of, bid_of, calc_auctino_fee, holding, settle_winner, handle_winner,
  do_settle_auction,
}
use archer_in_zoo.Auction.Calls.{do_stop_auction, settle_if_started}
use archer_in_zoo.Auction.Steps.Ensured.{ensure_auction-cases}
use archer_in_zoo.Auction.Steps.Funds.{settle_if_started-OnlyFunds}
use archer_in_zoo.Auction.Settlement.Locks.{unlock_all-locks}

and_then-store :
    {L I A B : Type 0} (s : Store) (x : Result A × World L I) (f : A → Action (World L I) B)
    → x.1.store ≡ s
    → ((a : A) (w : World L I) → w.store ≡ s → (f a w).1.store ≡ s)
    → (and_then x f).1.store ≡ s
and_then-store s (ok a, w) f h rest = rest a w h
and_then-store s (err e, w) f h rest = h

module _ {L I : Type 0} (c : Currency L) (t : ItemTransfer I) where
  holding-store :
      (n : ℕ) (m : Action (World L I) (Unit {0})) (w : World L I)
      → (holding c n m w).1.store ≡ (m w).1.store
  holding-store n m w = ground arith

  -- Payment and transfer leave the module's storage.
  settle_winner-store :
      (owner winner item bid : ℕ) (w : World L I)
      → (settle_winner c t owner winner item bid w).1.store ≡ w.store
  unfolding settle_winner
  settle_winner-store owner winner item bid w =
      let (value, fee) = calc_auctino_fee bid in
      let pay : Action (World L I) (Unit {0}) =
        on_ledger (c.transfer winner owner value) >> on_items (t.transfer_item owner winner item) in
      and_then-store w.store (on_ledger (c.withdraw winner fee) w)
        (λ n. holding c n pay >> modify (modify_ledger (c.on_unbalanced n))) refl
        λ n w1 same.
          and_then-store w.store (holding c n pay w1)
            (λ _. modify (modify_ledger (c.on_unbalanced n)))
            (holding-store n pay w1
              ∙ and_then-store w.store (on_ledger (c.transfer winner owner value) w1)
                  (λ _. on_items (t.transfer_item owner winner item)) same λ _ _ e. e)
            λ _ _ e. e

  pub handle_winner-store :
      (a : Auction) (w : World L I) → (handle_winner c t a w).1.store ≡ w.store
  handle_winner-store a w = elim (Option-cases a.item) [
    | inl e ↦ rw e refl
    | inr (item, e) ↦ elim (Option-cases a.latest_participate) [
      | inl f ↦ rw (e, f) refl
      | inr ((winner, m), f) ↦
          rw (e, f) (settle_winner-store a.owner winner item (bid_of a.id winner w.store) w)
    ]
  ]

  -- The accounts whose locks a settlement lowers: the participants of an auction that has started.
  abbrev pub released : Auction → Store → List ℕ
  released a s =
      if same_status a.status pending_start then [] else get_or (s.auction_participants a.id) []

  do_settle_auction-locks :
      (a : Auction) (w : World L I) (q : ℕ)
      → Distinct (get_or (w.store.auction_participants a.id) [])
      → (do_settle_auction c t a w).0 ≡ ok tt
      → lock_of q (do_settle_auction c t a w).1.store
          + (if contains q (get_or (w.store.auction_participants a.id) [])
              then bid_of a.id q w.store
              else 0)
        ≡ lock_of q w.store
  unfolding do_settle_auction
  do_settle_auction-locks a w q d e =
      let ps = get_or (w.store.auction_participants a.id) [] in
      let (x, first, rest) = and_then-ok (unlock_all c a.id ps w) (λ _. handle_winner c t a) tt e in
      let w1 = (unlock_all c a.id ps w).1 in
      let settled : do_settle_auction c t a w ≡ handle_winner c t a w1 = rest in
      rw (settled, handle_winner-store a w1) (unlock_all-locks c a.id ps w q d first)

  -- What a stop does to the auctions and the locks.
  pub record Stopped (owner i : ℕ) (w w' : World L I) : Type 0 where
    pub auction : Auction
    pub found : w.store.auctions i ≡ some auction
    pub own : auction.owner ≡ owner
    pub live : auction.status ≢ stopped
    pub auctions :
        (j : ℕ)
        → w'.store.auctions j
          ≡ (if j == i then some (record auction { status = stopped }) else w.store.auctions j)
    pub locks :
        (q : ℕ)
        → lock_of q w'.store
            + (if contains q (released auction w.store) then bid_of auction.id q w.store else 0)
          ≡ lock_of q w.store

  settle_if_started-locks :
      (a : Auction) (w : World L I) (q : ℕ)
      → Distinct (get_or (w.store.auction_participants a.id) [])
      → (settle_if_started c t a w).0 ≡ ok tt
      → lock_of q (settle_if_started c t a w).1.store
          + (if contains q (released a w.store) then bid_of a.id q w.store else 0)
        ≡ lock_of q w.store
  unfolding settle_if_started
  settle_if_started-locks a w q d e = elim (Bool-cases (same_status a.status pending_start)) [
    | inl early ↦ rw (early, settle_if_started) (ground arith)
    | inr started ↦
        rw (started, settle_if_started)
          (do_settle_auction-locks a w q d (rw (started, settle_if_started) at e))
  ]

  -- A stop by `do_stop_auction` that succeeds, where no account is listed twice as a participant, was
  -- made by the owner of an auction that was not stopped. That auction and no other is stopped, and
  -- if it had started each participant's lock has fallen by its bid; no other lock has changed.
  pub do_stop_auction-Stopped :
      (owner i : ℕ) (w : World L I)
      → ((k : ℕ) → Distinct (get_or (w.store.auction_participants k) []))
      → (do_stop_auction c t owner i w).0 ≡ ok tt
      → Stopped owner i w (do_stop_auction c t owner i w).1
  unfolding do_stop_auction change_auction_status remove_all_from_set
  do_stop_auction-Stopped owner i w d e = elim (ensure_auction-cases i none (some owner) w.store) [
    | inl (e', bad) ↦ let no = rw bad at e in cc
    | inr (a, g) ↦ elim (Bool-cases (same_status a.status stopped)) [
      | inl over ↦ let no = rw (g.result, over) at e in cc
      | inr live ↦
          let after = rw (g.result, live) at e in
          let finish : Unit {0} → Action (World L I) (Unit {0}) = λ _.
            modify (modify_store (change_auction_status i a.status stopped))
            >> modify (modify_store (remove_all_from_set active_vec (i ∷ []))) in
          let (x, settled, rest) = and_then-ok (settle_if_started c t a w) finish tt after in
          let w1 = (settle_if_started c t a w).1 in
          let whole : do_stop_auction c t owner i w ≡ finish tt w1 = rw (g.result, live) rest in
          let same : w1.store.auctions ≡ w.store.auctions =
            ap (λ s. s.auctions) (settle_if_started-OnlyFunds c t a w) in
          rw whole (record {
            auction = a;
            found = g.found;
            own = g.has_owner;
            live = λ p. let no = rw p at live in cc;
            auctions = λ j. ground (arith, ap (λ f. f j) same, ap (λ f. f i) same, g.found);
            locks = λ q. settle_if_started-locks a w q (d a.id) settled;
          })
    ]
  ]
