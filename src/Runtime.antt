-- ===== src/Runtime.antt =====
-- substrate-kitties/runtime/src/lib.rs: the runtime that `construct_runtime!` assembles, with the
-- kitties as the items of the auctions.
pub mod Constants
pub mod Highest
pub mod Histories
pub mod Sales
pub mod Sellable
pub mod Transactions
pub mod Version
pub mod Tests
use archer_in_zoo.Prelude.{List, [], ◌∷◌}
use archer_in_zoo.Outcome.{Action}
use archer_in_zoo.System.{System, Hash}
use archer_in_zoo.Kitties.{State}
use archer_in_zoo.Kitties.Calls as Kitties
use archer_in_zoo.Kitties.History.{dispatch}
use archer_in_zoo.Kitties.Items.{kitty_items}
use archer_in_zoo.Auction.Currency.{Currency, World, on_ledger, on_items}
use archer_in_zoo.Auction.Passive.{Keys, Aura}
use archer_in_zoo.Auction.Dispatch as Auctions

-- The outer call: of the kitties, of the auctions, or of one of the framework's modules, which work on
-- storage of their own.
pub data RuntimeCall (L Signature Origin : Type 0) : Type 0 where
  kitties_call : Kitties.Call Origin → RuntimeCall L Signature Origin
  auctions_call : Aura → Origin → Auctions.Call Signature → RuntimeCall L Signature Origin
  framework_call : Action L (Unit {0}) → RuntimeCall L Signature Origin

module _ {L Signature Origin : Type 0} (c : Currency L) (k : Keys Signature) (sys : System Origin)
    (hash : Hash) where
  unfoldable pub dispatch_call : RuntimeCall L Signature Origin → Action (World L State) (Unit {0})
  dispatch_call (kitties_call call) = on_items (dispatch sys hash call)
  dispatch_call (auctions_call aura o call) = Auctions.dispatch c kitty_items k sys aura o call
  dispatch_call (framework_call m) = on_ledger m

  -- The world after a history of calls; a call that fails is passed over with whatever it has written.
  unfoldable pub run_calls : List (RuntimeCall L Signature Origin) → World L State → World L State
  unfolding dispatch_call
  run_calls [] w = w
  run_calls (call ∷ rest) w = run_calls rest (dispatch_call call w).1
