-- ===== src/Runtime/Histories.antt =====
-- Histories of calls of the whole runtime.
use archer_in_zoo.Prelude.{some, arith, ℕ, ◌≤◌, ◌≡◌, true, false, List, [], ◌∷◌, ◌=?◌, is_some, ltb}
use archer_in_zoo.System.{System, Hash}
use archer_in_zoo.Kitties.{State, is_kitty_owner, kitty_index_max}
use archer_in_zoo.Kitties.Refinement.{genesis-Refines}
use archer_in_zoo.Kitties.Registry.{empty}
use archer_in_zoo.Kitties.History.{refined_owners, dispatch-Simulates, dispatch_spec}
use archer_in_zoo.Kitties.Items.{kitty_items, IsSound, kitty_items-Lawful, is_item_owner}
use archer_in_zoo.Kitties.Moves.{TransferBy, dispatch-TransferBy}
use archer_in_zoo.Auction.Currency.{Currency, World}
use archer_in_zoo.Auction.Passive.{Keys}
use archer_in_zoo.Auction.Dispatch.{genesis}
use archer_in_zoo.Auction.WellFormed.{WellFormed, empty-WellFormed, Reach-WellFormed}
use archer_in_zoo.Auction.Steps.Unsigned.{dispatch-Reach}
use archer_in_zoo.Auction.Deliveries.Calls.{dispatch-Deliveries}
use archer_in_zoo.Auction.Deliveries.Moves.{Sold, Deliveries-Good, Deliveries-Sold}
use archer_in_zoo.Runtime.{
  RuntimeCall, kitties_call, auctions_call, framework_call, dispatch_call, run_calls,
}

-- Both modules' storage is in order.
pub record IsOrdered {L : Type 0} (w : World L State) : Type 0 where
  pub kitties : IsSound w.items
  pub auctions : WellFormed w.store

module _ {L Signature Origin : Type 0} (c : Currency L) (k : Keys Signature) (sys : System Origin)
    (hash : Hash) where
  pub dispatch_call-IsOrdered :
      (call : RuntimeCall L Signature Origin) (w : World L State)
      → IsOrdered w
      → IsOrdered (dispatch_call c k sys hash call w).1
  unfolding dispatch_call
  dispatch_call-IsOrdered (kitties_call call) w h =
      let (r, refines) = h.kitties in
      record {
        kitties = (
          (dispatch_spec sys hash call r).1,
          (dispatch-Simulates sys hash call w.items r refines).refines,
        );
        auctions = h.auctions;
      }
  dispatch_call-IsOrdered (auctions_call aura o call) w h = record {
    kitties =
        Deliveries-Good kitty_items IsSound kitty_items-Lawful w.store
          (dispatch-Deliveries c kitty_items k sys aura o call w) h.kitties;
    auctions = Reach-WellFormed (dispatch-Reach c kitty_items k sys aura o call w) h.auctions;
  }
  dispatch_call-IsOrdered (framework_call m) w h = record {
    kitties = h.kitties;
    auctions = h.auctions;
  }

  pub run_calls-IsOrdered :
      (calls : List (RuntimeCall L Signature Origin)) (w : World L State)
      → IsOrdered w
      → IsOrdered (run_calls c k sys hash calls w)
  unfolding run_calls
  run_calls-IsOrdered [] w h = h
  run_calls-IsOrdered (call ∷ rest) w h =
      run_calls-IsOrdered rest (dispatch_call c k sys hash call w).1
        (dispatch_call-IsOrdered call w h)

  pub genesis-IsOrdered : (l : L) → IsOrdered (genesis l archer_in_zoo.Kitties.genesis)
  genesis-IsOrdered l = record { kitties = (empty, genesis-Refines); auctions = empty-WellFormed }

  -- Why an account may have lost a kitty by a call.
  abbrev pub Released : RuntimeCall L Signature Origin → World L State → (who kitty_id : ℕ) → Type 0
  Released (kitties_call call) w who j = TransferBy sys hash call who j
  Released (auctions_call aura o call) w who j = Sold w.store who j
  Released (framework_call m) w who j = ⊥

  dispatch_call-Released :
      (call : RuntimeCall L Signature Origin) (w : World L State) (who j : ℕ)
      → IsOrdered w
      → is_kitty_owner who j w.items ≡ true
      → is_kitty_owner who j (dispatch_call c k sys hash call w).1.items ≡ false
      → Released call w who j
  unfolding dispatch_call is_item_owner
  dispatch_call-Released (kitties_call call) w who j h mine lost =
      dispatch-TransferBy sys hash call w.items h.kitties.0 who j h.kitties.1 mine lost
  dispatch_call-Released (auctions_call aura o call) w who j h mine lost =
      Deliveries-Sold kitty_items IsSound kitty_items-Lawful w.store
        (dispatch-Deliveries c kitty_items k sys aura o call w) who j h.kitties mine lost
  dispatch_call-Released (framework_call m) w who j h mine lost = ground (arith, mine, lost)

  -- After every history of the runtime's calls from the first state, an account that loses a kitty by
  -- the next call has signed its transfer, or that call is one of the auctions and an auction of the
  -- account that is not stopped has the kitty and a latest bid.
  pub run_calls-Released :
      (calls : List (RuntimeCall L Signature Origin)) (l : L)
      (call : RuntimeCall L Signature Origin) (who j : ℕ)
      → let w = run_calls c k sys hash calls (genesis l archer_in_zoo.Kitties.genesis) in
        is_kitty_owner who j w.items ≡ true
        → is_kitty_owner who j (dispatch_call c k sys hash call w).1.items ≡ false
        → Released call w who j
  run_calls-Released calls l call who j mine lost =
      dispatch_call-Released call _ who j (run_calls-IsOrdered calls _ (genesis-IsOrdered l)) mine
        lost

  -- After every history of the runtime's calls from the first state, exactly the numbers below the
  -- count have a kitty and an owner, the links and `KittyOwners` name the same owner, the count is
  -- within `u32`, and the auctions are well formed.
  pub run_calls_owners :
      (calls : List (RuntimeCall L Signature Origin)) (l : L) (j who : ℕ)
      → let w = run_calls c k sys hash calls (genesis l archer_in_zoo.Kitties.genesis) in
        (is_some (w.items.kitties j) ≡ ltb j w.items.kitties_count)
        × (is_some (w.items.kitty_owners j) ≡ ltb j w.items.kitties_count)
        × (is_kitty_owner who j w.items ≡ (w.items.kitty_owners j =? some who))
        × (w.items.kitties_count ≤ kitty_index_max)
        × WellFormed w.store
  run_calls_owners calls l j who =
      let w = run_calls c k sys hash calls (genesis l archer_in_zoo.Kitties.genesis) in
      let ordered = run_calls-IsOrdered calls _ (genesis-IsOrdered l) in
      let (a, b, e, f) = refined_owners w.items ordered.kitties.0 j who ordered.kitties.1 in
      (a, b, e, f, ordered.auctions)
