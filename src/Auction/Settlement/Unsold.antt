-- ===== src/Auction/Settlement/Unsold.antt =====
-- Stopping an auction that has no winner to pay for.
use archer_in_zoo.Prelude.{
  ℕ, ◌≡◌, refl, true, false, none, some, [], ◌∷◌, ◌==◌, arith, ◌⊎◌, inl, inr, Bool-cases, get_or,
  Distinct,
}
use archer_in_zoo.Outcome.{ok, Action, modify, ◌>>◌, and_then-eq}
use archer_in_zoo.Traits.{ItemTransfer}
use archer_in_zoo.Auction.Types.{Auction, Store, pending_start, stopped, active_vec, same_status}
use archer_in_zoo.Auction.Currency.{Currency, World, modify_store}
use archer_in_zoo.Auction.Store.{
  ensure_auction_with_status, change_auction_status, remove_all_from_set,
}
use archer_in_zoo.Auction.Funds.{unlock_all, handle_winner, do_settle_auction}
use archer_in_zoo.Auction.Calls.{settle_if_started, do_stop_auction}
use archer_in_zoo.Auction.Settlement.Covered.{all_covered, unlock_all-ok}

ensured_owner :
    (i owner : ℕ) (a : Auction) (s : Store)
    → s.auctions i ≡ some a
    → a.owner ≡ owner
    → ensure_auction_with_status i none (some owner) s ≡ (ok a, s)
unfolding ensure_auction_with_status
ensured_owner i owner a s found own =
    let mine : (a.owner == owner) ≡ true = ground arith in rw (found, mine) refl

module _ {L I : Type 0} (c : Currency L) (t : ItemTransfer I) where
  handle_winner_unsold :
      (a : Auction) (w : World L I)
      → (a.item ≡ none) ⊎ (a.latest_participate ≡ none)
      → handle_winner c t a w ≡ (ok tt, w)
  handle_winner_unsold a w (inl e) = rw e refl
  handle_winner_unsold a w (inr e) = ground (arith, e)

  settle_if_started-ok :
      (a : Auction) (w : World L I)
      → (a.item ≡ none) ⊎ (a.latest_participate ≡ none)
      → Distinct (get_or (w.store.auction_participants a.id) [])
      → all_covered a.id (get_or (w.store.auction_participants a.id) []) w.store ≡ true
      → (settle_if_started c t a w).0 ≡ ok tt
  unfolding settle_if_started do_settle_auction
  settle_if_started-ok a w unsold d covered =
      let ps = get_or (w.store.auction_participants a.id) [] in
      elim (Bool-cases (same_status a.status pending_start)) [
        | inl early ↦ rw (early, settle_if_started) refl
        | inr started ↦
            let settled : do_settle_auction c t a w
                ≡ handle_winner c t a (unlock_all c a.id ps w).1 =
              and_then-eq (unlock_all c a.id ps w) (λ _. handle_winner c t a) tt
                (unlock_all-ok c a.id ps w d covered) in
            rw (started, settle_if_started, settled, handle_winner_unsold a _ unsold) refl
      ]

  -- A stop by the owner ends well where the settlement does.
  pub stop_if_settled :
      (owner i : ℕ) (a : Auction) (w : World L I)
      → w.store.auctions i ≡ some a
      → a.owner ≡ owner
      → same_status a.status stopped ≡ false
      → (settle_if_started c t a w).0 ≡ ok tt
      → (do_stop_auction c t owner i w).0 ≡ ok tt
  unfolding do_stop_auction
  stop_if_settled owner i a w found own live settles =
      let finish : Action (World L I) (Unit {0}) =
        modify (modify_store (change_auction_status i a.status stopped))
        >> modify (modify_store (remove_all_from_set active_vec (i ∷ []))) in
      let settled = and_then-eq (settle_if_started c t a w) (λ _. finish) tt settles in
      rw (ensured_owner i owner a w.store found own, live, settled) refl

  -- The owner of an auction that is not stopped and has no item or no bid can stop it, where its
  -- participants are distinct and each has no bid on it or a lock no smaller than its bid.
  pub do_stop_auction-ok :
      (owner i : ℕ) (a : Auction) (w : World L I)
      → w.store.auctions i ≡ some a
      → a.owner ≡ owner
      → same_status a.status stopped ≡ false
      → (a.item ≡ none) ⊎ (a.latest_participate ≡ none)
      → Distinct (get_or (w.store.auction_participants a.id) [])
      → all_covered a.id (get_or (w.store.auction_participants a.id) []) w.store ≡ true
      → (do_stop_auction c t owner i w).0 ≡ ok tt
  do_stop_auction-ok owner i a w found own live unsold d covered =
      stop_if_settled owner i a w found own live (settle_if_started-ok a w unsold d covered)
