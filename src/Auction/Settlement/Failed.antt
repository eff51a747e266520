-- ===== src/Auction/Settlement/Failed.antt =====
-- What a settlement and a stop that fail leave behind.
use archer_in_zoo.Prelude.{
  ℕ, ◌≤◌, ◌≡◌, refl, sym, ap, ◌∙◌, Bool-cases, Option-cases, none, some, [], ◌∷◌, arith, inl, inr,
  get_or,
}
use archer_in_zoo.Outcome.{Error, Result, err, Action, and_then-cases, modify, ◌>>◌}
use archer_in_zoo.Traits.{ItemTransfer, Lawful}
use archer_in_zoo.Auction.Types.{Auction, pending_start, stopped, same_status, active_vec}
use archer_in_zoo.Auction.Currency.{
  Currency, World, on_ledger, on_items, modify_ledger, modify_store,
}
use archer_in_zoo.Auction.Store.{change_auction_status, remove_all_from_set}
use archer_in_zoo.Auction.Funds.{
  lock_of, bid_of, unlock_all, calc_auctino_fee, holding, settle_winner, handle_winner,
  do_settle_auction,
}
use archer_in_zoo.Auction.Calls.{settle_if_started, do_stop_auction}
use archer_in_zoo.Auction.Steps.{with_funds}
use archer_in_zoo.Auction.Steps.Ensured.{ensure_auction-cases}
use archer_in_zoo.Auction.Steps.Funds.{do_settle_auction-OnlyFunds}
use archer_in_zoo.Auction.Settlement.Locks.{unlock_all-Kept}
use archer_in_zoo.Auction.Settlement.Lowered.{do_settle_auction-lowers}

-- What a failed stop leaves: all of the storage but the locks, which are no higher, and the items.
pub record LeftBehind {L I : Type 0} (w w' : World L I) : Type 0 where
  pub others : w'.store ≡ with_funds w'.store.account_locks w.store.auction_bids w.store
  pub lowered : (q : ℕ) → lock_of q w'.store ≤ lock_of q w.store
  pub items : w'.items ≡ w.items

nothing_done : {L I : Type 0} (w : World L I) → LeftBehind w w
nothing_done w = record { others = refl; lowered = λ q. omega arith; items = refl }

module _ {L I : Type 0} (c : Currency L) (t : ItemTransfer I) where
  -- Where a call has failed, the items are as they were.
  abbrev ItemsKept : I → Result (Unit {0}) × World L I → Type 0
  ItemsKept items x = (e : Error) → x.0 ≡ err e → x.1.items ≡ items

  holding-ItemsKept :
      (n : ℕ) (m : Action (World L I) (Unit {0})) (w : World L I) (items : I)
      → ItemsKept items (m w)
      → ItemsKept items (holding c n m w)
  holding-ItemsKept n m w items h e failed =
      let inner : (m w).0 ≡ err e = ground (arith, failed) in
      let same : (holding c n m w).1.items ≡ (m w).1.items = ground arith in same ∙ h e inner

  module _ (Good : I → Type 0) (lawful : Lawful t Good) where
    -- A transfer of an item that fails was not by its owner, and changes nothing.
    transfer_item-refused :
        (source dest item : ℕ) (i : I) (e : Error)
        → Good i
        → (t.transfer_item source dest item i).0 ≡ err e
        → (t.transfer_item source dest item i).1 ≡ i
    transfer_item-refused source dest item i e g failed =
        elim (Bool-cases (t.is_item_owner source item i)) [
          | inl mine ↦ let no = sym (lawful.gives source dest item i g mine) ∙ failed in cc
          | inr foreign ↦ ap (λ x. x.1) (lawful.refuses source dest item i foreign).1
        ]

    settle_winner-ItemsKept :
        (owner winner item bid : ℕ) (w : World L I)
        → Good w.items
        → ItemsKept w.items (settle_winner c t owner winner item bid w)
    unfolding settle_winner
    settle_winner-ItemsKept owner winner item bid w g =
        let value = (calc_auctino_fee bid).0 in
        let pay : Action (World L I) (Unit {0}) =
          on_ledger (c.transfer winner owner value)
          >> on_items (t.transfer_item owner winner item) in
        and_then-cases (ItemsKept w.items)
          (on_ledger (c.withdraw winner (calc_auctino_fee bid).1) w)
          (λ n. holding c n pay >> modify (modify_ledger (c.on_unbalanced n)))
          (λ e w1 q e' r. sym (ap (λ x. x.1.items) q))
          λ n w1 q.
            let same : w1.items ≡ w.items = sym (ap (λ x. x.1.items) q) in
            let paid : ItemsKept w.items (pay w1) =
              and_then-cases (ItemsKept w.items) (on_ledger (c.transfer winner owner value) w1)
                (λ _. on_items (t.transfer_item owner winner item))
                (λ e w2 q' e' r. sym (ap (λ x. x.1.items) q') ∙ same)
                λ _ w2 q' e' r.
                  let same' : w2.items ≡ w.items = sym (ap (λ x. x.1.items) q') ∙ same in
                  let good : Good w2.items = rw same' g in
                  transfer_item-refused owner winner item w2.items e' good r ∙ same' in
            and_then-cases (ItemsKept w.items) (holding c n pay w1)
              (λ _. modify (modify_ledger (c.on_unbalanced n)))
              (λ e w2 q' e' r.
                sym (ap (λ x. x.1.items) q')
                ∙ holding-ItemsKept n pay w1 w.items paid e (ap (λ x. x.0) q'))
              λ _ w2 q' e' r. cc

    handle_winner-ItemsKept :
        (a : Auction) (w : World L I) → Good w.items → ItemsKept w.items (handle_winner c t a w)
    handle_winner-ItemsKept a w g e = elim (Option-cases a.item) [
      | inl unset ↦ rw unset λ r. refl
      | inr (item, has_item) ↦ elim (Option-cases a.latest_participate) [
        | inl no_bid ↦ rw (has_item, no_bid) λ r. refl
        | inr ((winner, moment), has_bid) ↦
            rw (has_item, has_bid)
              (settle_winner-ItemsKept a.owner winner item (bid_of a.id winner w.store) w g e)
      ]
    ]

    do_settle_auction-ItemsKept :
        (a : Auction) (w : World L I) → Good w.items → ItemsKept w.items (do_settle_auction c t a w)
    unfolding do_settle_auction
    do_settle_auction-ItemsKept a w g =
        let kept =
          (unlock_all-Kept c a.id (get_or (w.store.auction_participants a.id) []) w).items in
        and_then-cases (ItemsKept w.items)
          (unlock_all c a.id (get_or (w.store.auction_participants a.id) []) w)
          (λ _. handle_winner c t a) (λ e w1 q e' r. rw (ap (λ x. x.1) q) at kept)
          λ _ w1 q e' r.
            let same : w1.items ≡ w.items = rw (ap (λ x. x.1) q) at kept in
            let good : Good w1.items = rw same g in handle_winner-ItemsKept a w1 good e' r ∙ same

    settle_if_started-LeftBehind :
        (a : Auction) (w : World L I) (e : Error)
        → Good w.items
        → (settle_if_started c t a w).0 ≡ err e
        → LeftBehind w (settle_if_started c t a w).1
    unfolding settle_if_started
    settle_if_started-LeftBehind a w e g failed =
        elim (Bool-cases (same_status a.status pending_start)) [
          | inl early ↦ rw (early, settle_if_started) (nothing_done w)
          | inr started ↦
              let (lowered, bids) = do_settle_auction-lowers c t a w in
              let funds = do_settle_auction-OnlyFunds c t a w in
              let s' = (do_settle_auction c t a w).1.store in
              rw (started, settle_if_started)
                (record {
                  others = funds ∙ λ i. with_funds s'.account_locks (bids i) w.store;
                  lowered = lowered;
                  items =
                      do_settle_auction-ItemsKept a w g e
                        (rw (started, settle_if_started) at failed);
                })
        ]

    -- Where the items are lawful, a stop by do_stop_auction that fails leaves the items and all of
    -- the module's storage as they were but the locks, and no lock is higher than before.
    pub do_stop_auction-LeftBehind :
        (owner i : ℕ) (w : World L I) (e : Error)
        → Good w.items
        → (do_stop_auction c t owner i w).0 ≡ err e
        → LeftBehind w (do_stop_auction c t owner i w).1
    unfolding do_stop_auction
    do_stop_auction-LeftBehind owner i w e g failed =
        elim (ensure_auction-cases i none (some owner) w.store) [
          | inl (e', bad) ↦ rw bad (nothing_done w)
          | inr (a, found) ↦ elim (Bool-cases (same_status a.status stopped)) [
            | inl over ↦ rw (found.result, over) (nothing_done w)
            | inr live ↦
                let finish : Unit {0} → Action (World L I) (Unit {0}) = λ _.
                  modify (modify_store (change_auction_status i a.status stopped))
                  >> modify (modify_store (remove_all_from_set active_vec (i ∷ []))) in
                let left =
                  and_then-cases (λ x. x.0 ≡ err e → LeftBehind w x.1) (settle_if_started c t a w)
                    finish
                    (λ e' w1 q r.
                      rw (ap (λ x. x.1) q) at
                        (settle_if_started-LeftBehind a w e' g (ap (λ x. x.0) q)))
                    λ _ w1 q r. cc in
                rw (found.result, live) (left (rw (found.result, live) at failed))
          ]
        ]
