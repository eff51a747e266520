-- ===== src/Runtime/Sales.antt =====
-- A kitty that an auction sells, in the whole runtime.
use archer_in_zoo.Prelude.{ℕ, ◌≡◌, sym, ◌∙◌, true, some, List, ◌==◌, ◌=?◌, Option-cases, inl, inr}
use archer_in_zoo.Outcome.{ok, pure, and_then-ok}
use archer_in_zoo.System.{System, Hash}
use archer_in_zoo.Kitties.{State, is_kitty_owner}
use archer_in_zoo.Kitties.Refinement.{is_kitty_owner-eq}
use archer_in_zoo.Kitties.Items.{kitty_items, IsSound, kitty_items-Lawful, is_item_owner}
use archer_in_zoo.Auction.Types.{Auction}
use archer_in_zoo.Auction.Currency.{Currency, World}
use archer_in_zoo.Auction.Calls.{do_stop_auction, stop_auction}
use archer_in_zoo.Auction.Passive.{Keys, Aura}
use archer_in_zoo.Auction.Dispatch.{genesis, stop_call}
use archer_in_zoo.Auction.Settlement.Sold.{do_stop_auction-sold}
use archer_in_zoo.Runtime.{RuntimeCall, auctions_call, dispatch_call, run_calls}
use archer_in_zoo.Runtime.Histories.{
  IsOrdered, dispatch_call-IsOrdered, run_calls-IsOrdered, genesis-IsOrdered,
}

module _ {L Signature Origin : Type 0} (c : Currency L) (k : Keys Signature) (sys : System Origin)
    (hash : Hash) where
  sold_by_stop :
      (aura : Aura) (o : Origin) (i : ℕ) (a : Auction) (winner moment item : ℕ) (w : World L State)
      → IsOrdered w
      → w.store.auctions i ≡ some a
      → a.item ≡ some item
      → a.latest_participate ≡ some (winner, moment)
      → (dispatch_call c k sys hash (auctions_call aura o (stop_call i)) w).0 ≡ ok tt
      → (is_kitty_owner a.owner item w.items ≡ true)
        × ((who : ℕ)
            → is_kitty_owner who item
                (dispatch_call c k sys hash (auctions_call aura o (stop_call i)) w).1.items
              ≡ (who == winner))
  unfolding dispatch_call archer_in_zoo.Auction.Dispatch.dispatch stop_auction is_item_owner
  sold_by_stop aura o i a winner moment item w h found has_item has_bid done =
      elim (Option-cases (sys.ensure_signed o)) [
        | inl unsigned ↦ let no = rw unsigned at done in cc
        | inr (sender, signed) ↦
            let (x, stopped, rest) =
              and_then-ok (do_stop_auction c kitty_items sender i w) (λ _. pure tt) tt
                (rw signed at done) in
            let (owned, after) =
              do_stop_auction-sold c kitty_items sender i a winner moment item w h.auctions found
                has_item has_bid stopped IsSound kitty_items-Lawful h.kitties in
            (owned, λ who. rw (signed, rest) (after who))
      ]

  -- After every history of the runtime's calls from the first state, a stop by its owner that succeeds
  -- on an auction with a kitty and a latest bid found the kitty with the auction's owner; and then the
  -- latest bidder has it and nobody else, by the links and by `KittyOwners`.
  pub stop_call-sold :
      (calls : List (RuntimeCall L Signature Origin)) (l : L) (aura : Aura) (o : Origin) (i : ℕ)
      (a : Auction) (winner moment item : ℕ)
      → let w = run_calls c k sys hash calls (genesis l archer_in_zoo.Kitties.genesis) in
        w.store.auctions i ≡ some a
        → a.item ≡ some item
        → a.latest_participate ≡ some (winner, moment)
        → (dispatch_call c k sys hash (auctions_call aura o (stop_call i)) w).0 ≡ ok tt
        → let w' = (dispatch_call c k sys hash (auctions_call aura o (stop_call i)) w).1 in
          (is_kitty_owner a.owner item w.items ≡ true)
          × ((who : ℕ)
              → (is_kitty_owner who item w'.items ≡ (who == winner))
                × ((w'.items.kitty_owners item =? some who) ≡ (who == winner)))
  stop_call-sold calls l aura o i a winner moment item found has_item has_bid done =
      let w = run_calls c k sys hash calls (genesis l archer_in_zoo.Kitties.genesis) in
      let call = auctions_call aura o (stop_call i) in
      let h = run_calls-IsOrdered c k sys hash calls _ (genesis-IsOrdered c k sys hash l) in
      let after = dispatch_call-IsOrdered c k sys hash call w h in
      let (owned, sold) =
        sold_by_stop aura o i a winner moment item w h found has_item has_bid done in
      (
        owned,
        λ who.
            let agree =
              (is_kitty_owner-eq (dispatch_call c k sys hash call w).1.items after.kitties.0 who
                item after.kitties.1).1 in
            (sold who, sym agree ∙ sold who),
      )
