-- ===== src/Runtime/Sellable.antt =====
-- Which kitties an auction can sell, in the whole runtime.
use archer_in_zoo.Prelude.{
  ℕ, ◌+◌, ◌≡◌, sym, ap, ◌∙◌, Bool, true, false, ◌&&◌, some, List, [], ◌∷◌, ◌==◌, ◌=?◌,
  if◌then◌else◌,
}
use archer_in_zoo.Outcome.{ok, pure, and_then-eq}
use archer_in_zoo.System.{System, Hash}
use archer_in_zoo.Kitties.{State, is_kitty_owner}
use archer_in_zoo.Kitties.Refinement.{is_kitty_owner-eq}
use archer_in_zoo.Kitties.Items.{kitty_items, IsSound, kitty_items-Lawful, is_item_owner}
use archer_in_zoo.Auction.Types.{Auction, stopped, same_status}
use archer_in_zoo.Auction.Currency.{Currency, World}
use archer_in_zoo.Auction.Funds.{bid_of, calc_auctino_fee}
use archer_in_zoo.Auction.Calls.{do_stop_auction, stop_auction}
use archer_in_zoo.Auction.Passive.{Keys, Aura}
use archer_in_zoo.Auction.Dispatch.{genesis, stop_call}
use archer_in_zoo.Auction.Settlement.{CurrencyLaws}
use archer_in_zoo.Auction.Settlement.Payable.{CurrencyProgress, CanPay}
use archer_in_zoo.Auction.Accounts.{Accounted, empty-Accounted}
use archer_in_zoo.Auction.Accounts.Sweeps.{and_both}
use archer_in_zoo.Auction.Accounts.Histories.{is_careful, dispatch-Accounted}
use archer_in_zoo.Auction.Accounts.Sellable.{Sale, Accounted-Sale}
use archer_in_zoo.Runtime.{
  RuntimeCall, kitties_call, auctions_call, framework_call, dispatch_call, run_calls,
}
use archer_in_zoo.Runtime.Histories.{
  IsOrdered, dispatch_call-IsOrdered, run_calls-IsOrdered, genesis-IsOrdered,
}

-- What a sale is to do: the winner has the kitty and nobody else, by the links and by `KittyOwners`, and
-- the bid has gone from the winner to the auction's owner, less the fee.
pub record KittySale {L : Type 0} (c : Currency L) (winner item : ℕ) (a : Auction)
    (w w' : World L State) : Type 0 where
  pub holder : (who : ℕ) → is_kitty_owner who item w'.items ≡ (who == winner)
  pub recorded : (who : ℕ) → (w'.items.kitty_owners item =? some who) ≡ (who == winner)
  pub balances :
      (q : ℕ)
      → c.free_balance w'.ledger q + (if q == winner then bid_of a.id winner w.store else 0)
        ≡ c.free_balance w.ledger q
          + (if q == a.owner then (calc_auctino_fee (bid_of a.id winner w.store)).0 else 0)

module _ {L Signature Origin : Type 0} (c : Currency L) (k : Keys Signature) (sys : System Origin)
    (hash : Hash) where
  -- Each of the history's calls of the auctions is careful in the world that it meets.
  abbrev pub all_careful : List (RuntimeCall L Signature Origin) → World L State → Bool
  all_careful [] w = true
  all_careful (kitties_call call ∷ rest) w =
      all_careful rest (dispatch_call c k sys hash (kitties_call call) w).1
  all_careful (auctions_call aura o call ∷ rest) w =
      is_careful c kitty_items k sys aura o call w
      && all_careful rest (dispatch_call c k sys hash (auctions_call aura o call) w).1
  all_careful (framework_call m ∷ rest) w =
      all_careful rest (dispatch_call c k sys hash (framework_call m) w).1

  run_calls-Accounted :
      (calls : List (RuntimeCall L Signature Origin)) (w : World L State)
      → all_careful calls w ≡ true
      → Accounted w.store
      → Accounted (run_calls c k sys hash calls w).store
  unfolding run_calls dispatch_call
  run_calls-Accounted [] w e h = h
  run_calls-Accounted (kitties_call call ∷ rest) w e h = run_calls-Accounted rest _ e h
  run_calls-Accounted (framework_call m ∷ rest) w e h = run_calls-Accounted rest _ e h
  run_calls-Accounted (auctions_call aura o call ∷ rest) w e h =
      let (one, others) = and_both (is_careful c kitty_items k sys aura o call w) _ e in
      run_calls-Accounted rest _ others (dispatch-Accounted c kitty_items k sys aura o call w one h)

  -- A stop that is signed by `sender` and succeeds.
  stop_signed :
      (aura : Aura) (o : Origin) (sender i : ℕ) (w : World L State)
      → sys.ensure_signed o ≡ some sender
      → (do_stop_auction c kitty_items sender i w).0 ≡ ok tt
      → dispatch_call c k sys hash (auctions_call aura o (stop_call i)) w
        ≡ (ok tt, (do_stop_auction c kitty_items sender i w).1)
  unfolding dispatch_call archer_in_zoo.Auction.Dispatch.dispatch stop_auction
  stop_signed aura o sender i w signed done =
      rw signed (and_then-eq (do_stop_auction c kitty_items sender i w) (λ _. pure tt) tt done)

  stopped-KittySale :
      (aura : Aura) (o : Origin) (i winner item : ℕ) (a : Auction) (w : World L State)
      → IsOrdered w
      → sys.ensure_signed o ≡ some a.owner
      → Sale c kitty_items i winner item a w
      → let (r, w') = dispatch_call c k sys hash (auctions_call aura o (stop_call i)) w in
        (r ≡ ok tt) × KittySale c winner item a w w'
  unfolding is_item_owner
  stopped-KittySale aura o i winner item a w h signed s =
      let call = auctions_call aura o (stop_call i) in
      let done = stop_signed aura o a.owner i w signed s.result_ok in
      let good = (dispatch_call-IsOrdered c k sys hash call w h).kitties in
      let holder : (who : ℕ)
          → is_kitty_owner who item (dispatch_call c k sys hash call w).1.items ≡ (who == winner) =
        λ who. rw done (s.holder who) in
      (
        ap (λ x. x.0) done,
        record {
          holder = holder;
          recorded = λ who. sym (is_kitty_owner-eq _ good.0 who item good.1).1 ∙ holder who;
          balances = λ q. rw done (s.balances q);
        },
      )

  -- After every history of the runtime's calls from the first state whose calls of the auctions are
  -- careful, a stop that is signed by the owner of an auction with a kitty and a latest bid, that is not
  -- stopped and whose owner has the kitty, succeeds, where the currency moves money that is free to
  -- move, the latest bidder can pay the bid and the owner's account can take it; and then the bidder has
  -- the kitty and nobody else, by the links and by `KittyOwners`, and has paid the bid, of which the
  -- owner has got all but the fee, and no other free balance has changed.
  pub stop_call-KittySale :
      (minimum maximum : ℕ) (laws : CurrencyLaws c minimum) (usable : L → (account : ℕ) → ℕ)
      (can : CurrencyProgress c minimum maximum usable)
      (calls : List (RuntimeCall L Signature Origin)) (l : L) (aura : Aura) (o : Origin)
      (i winner moment item : ℕ) (a : Auction)
      → let w = run_calls c k sys hash calls (genesis l archer_in_zoo.Kitties.genesis) in
        all_careful calls (genesis l archer_in_zoo.Kitties.genesis) ≡ true
        → w.store.auctions i ≡ some a
        → same_status a.status stopped ≡ false
        → a.item ≡ some item
        → a.latest_participate ≡ some (winner, moment)
        → is_kitty_owner a.owner item w.items ≡ true
        → CanPay c minimum maximum usable winner a.owner (bid_of a.id winner w.store) w.ledger
        → sys.ensure_signed o ≡ some a.owner
        → let (r, w') = dispatch_call c k sys hash (auctions_call aura o (stop_call i)) w in
          (r ≡ ok tt) × KittySale c winner item a w w'
  unfolding is_item_owner
  stop_call-KittySale minimum maximum laws usable can calls l aura o i winner moment item a careful
        found live has_item has_bid owns pays signed =
      let w = run_calls c k sys hash calls (genesis l archer_in_zoo.Kitties.genesis) in
      let h = run_calls-IsOrdered c k sys hash calls _ (genesis-IsOrdered c k sys hash l) in
      let locks = run_calls-Accounted calls _ careful empty-Accounted in
      stopped-KittySale aura o i winner item a w h signed (
        Accounted-Sale c kitty_items minimum maximum laws usable can IsSound kitty_items-Lawful i
          winner moment item a w locks found live has_item has_bid pays h.kitties owns)
