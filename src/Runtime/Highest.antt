-- ===== src/Runtime/Highest.antt =====
-- The highest bidders over histories of the runtime's calls.
use archer_in_zoo.Prelude.{ℕ, ◌<◌, ◌≡◌, ap, ◌∙◌, Bool, true, false, ◌&&◌, some, List, [], ◌∷◌, ◌==◌}
use archer_in_zoo.System.{System, Hash}
use archer_in_zoo.Kitties.{State}
use archer_in_zoo.Kitties.Items.{kitty_items}
use archer_in_zoo.Auction.Types.{Auction}
use archer_in_zoo.Auction.Currency.{Currency, World}
use archer_in_zoo.Auction.Funds.{bid_of}
use archer_in_zoo.Auction.Passive.{Keys}
use archer_in_zoo.Auction.Dispatch.{genesis}
use archer_in_zoo.Auction.Accounts.Sweeps.{and_both}
use archer_in_zoo.Auction.Leads.{Leads, empty-Leads}
use archer_in_zoo.Auction.Leads.Bids.{lead-some}
use archer_in_zoo.Auction.Leads.Histories.{is_modest, dispatch-Leads}
use archer_in_zoo.Auction.Leads.{lead}
use archer_in_zoo.Runtime.{
  RuntimeCall, kitties_call, auctions_call, framework_call, dispatch_call, run_calls,
}
use archer_in_zoo.Runtime.Histories.{IsOrdered, dispatch_call-IsOrdered, genesis-IsOrdered}

module _ {L Signature Origin : Type 0} (c : Currency L) (k : Keys Signature) (sys : System Origin)
    (hash : Hash) where
  -- Each bid of the history is a balance, with its auction's minimum step added.
  abbrev pub all_modest : List (RuntimeCall L Signature Origin) → World L State → Bool
  all_modest [] w = true
  all_modest (kitties_call call ∷ rest) w =
      all_modest rest (dispatch_call c k sys hash (kitties_call call) w).1
  all_modest (auctions_call aura o call ∷ rest) w =
      is_modest c kitty_items k sys call w
      && all_modest rest (dispatch_call c k sys hash (auctions_call aura o call) w).1
  all_modest (framework_call m ∷ rest) w =
      all_modest rest (dispatch_call c k sys hash (framework_call m) w).1

  run_calls-Leads :
      (calls : List (RuntimeCall L Signature Origin)) (w : World L State)
      → all_modest calls w ≡ true
      → IsOrdered w
      → Leads w.store
      → Leads (run_calls c k sys hash calls w).store
  unfolding run_calls dispatch_call
  run_calls-Leads [] w e o h = h
  run_calls-Leads (kitties_call call ∷ rest) w e o h =
      run_calls-Leads rest _ e (dispatch_call-IsOrdered c k sys hash (kitties_call call) w o) h
  run_calls-Leads (framework_call m ∷ rest) w e o h =
      run_calls-Leads rest _ e (dispatch_call-IsOrdered c k sys hash (framework_call m) w o) h
  run_calls-Leads (auctions_call aura origin call ∷ rest) w e o h =
      let (one, others) = and_both (is_modest c kitty_items k sys call w) _ e in
      run_calls-Leads rest _ others
        (dispatch_call-IsOrdered c k sys hash (auctions_call aura origin call) w o)
        (dispatch-Leads c kitty_items k sys aura origin call w one o.auctions h)

  -- After every history of the runtime's calls from the first state in which each bid, with its
  -- auction's minimum step added, is a balance, every other bid on record is below that of an auction's
  -- latest bidder.
  pub run_calls-highest :
      (calls : List (RuntimeCall L Signature Origin)) (l : L)
      → all_modest calls (genesis l archer_in_zoo.Kitties.genesis) ≡ true
      → let w = run_calls c k sys hash calls (genesis l archer_in_zoo.Kitties.genesis) in
        (i : ℕ) (a : Auction) (winner moment who bid : ℕ)
        → w.store.auctions i ≡ some a
        → a.latest_participate ≡ some (winner, moment)
        → w.store.auction_bids i who ≡ some bid
        → (who == winner) ≡ false
        → bid < bid_of i winner w.store
  run_calls-highest calls l e i a winner moment who bid found latest has_bid other =
      let h =
        run_calls-Leads calls (genesis l archer_in_zoo.Kitties.genesis) e
          (genesis-IsOrdered c k sys hash l) empty-Leads in
      h.highest i winner a.minimum_step who bid (ap lead found ∙ lead-some a winner moment latest)
        has_bid other
