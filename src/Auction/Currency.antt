-- ===== src/Auction/Currency.antt =====
-- What auction/mod.rs takes from other modules: the currency, the handler of fees and the items; and
-- the state that its calls work on.
use archer_in_zoo.Prelude.{ℕ, List}
use archer_in_zoo.Outcome.{Action}
use archer_in_zoo.Auction.Types.{Store}

-- `T::Currency` on a ledger `L`, with the arguments that the module never varies left out: locks
-- last until the highest block number and have no withdraw reason, and a withdrawal has the reason
-- `Fee` and keeps the account alive. An imbalance is the amount that was withdrawn: `T::OnAuctionPayment`
-- receives it, or it is dropped where an error ends the call.
pub record Currency (L : Type 0) : Type 0 where
  pub free_balance : L → (account : ℕ) → ℕ
  pub extend_lock : (id : List ℕ) → (account amount : ℕ) → L → L
  pub set_lock : (id : List ℕ) → (account amount : ℕ) → L → L
  pub remove_lock : (id : List ℕ) → (account : ℕ) → L → L
  pub withdraw : (account value : ℕ) → Action L ℕ
  pub transfer : (source dest value : ℕ) → Action L (Unit {0})
  pub on_unbalanced : (imbalance : ℕ) → L → L
  pub drop_imbalance : (imbalance : ℕ) → L → L

-- The module's storage, the currency's ledger and the item module's state.
pub record World (L I : Type 0) : Type 0 where
  pub store : Store
  pub ledger : L
  pub items : I

module _ {L I A : Type 0} where
  -- A call on one part of the world.
  abbrev pub on_store : Action Store A → Action (World L I) A
  on_store m w = let (r, s) = m w.store in (r, record w { store = s })

  abbrev pub on_ledger : Action L A → Action (World L I) A
  on_ledger m w = let (r, l) = m w.ledger in (r, record w { ledger = l })

  abbrev pub on_items : Action I A → Action (World L I) A
  on_items m w = let (r, i) = m w.items in (r, record w { items = i })

module _ {L I : Type 0} where
  abbrev pub modify_store : (Store → Store) → World L I → World L I
  modify_store f w = record w { store = f w.store }

  abbrev pub modify_ledger : (L → L) → World L I → World L I
  modify_ledger f w = record w { ledger = f w.ledger }
