-- ===== src/Auction/Dispatch.antt =====
-- The calls of the auction module as data, and histories of them.
use archer_in_zoo.Prelude.{ℕ, Option, List, [], ◌∷◌}
use archer_in_zoo.Outcome.{Action}
use archer_in_zoo.System.{System}
use archer_in_zoo.Traits.{ItemTransfer}
use archer_in_zoo.Auction.Types.{empty_store}
use archer_in_zoo.Auction.Currency.{Currency, World}
use archer_in_zoo.Auction.Calls.{
  create_auction, add_item, setup_moments, pause_auction, resume_auction, stop_auction,
  participate_auction,
}
use archer_in_zoo.Auction.Passive.{Keys, Aura, start_auctions_passive, stop_auctions_passive}

pub data Call (Signature : Type 0) : Type 0 where
  create_call : (begin_price minimum_step : ℕ) → (upper_bound_price : Option ℕ) → Call Signature
  add_item_call : (auction_id item : ℕ) → Call Signature
  setup_call : (auction_id : ℕ) → (start_at stop_at wait_period : Option ℕ) → Call Signature
  pause_call resume_call stop_call : (auction_id : ℕ) → Call Signature
  participate_call : (auction_id price : ℕ) → Call Signature
  start_passive_call stop_passive_call : (auction_ids : List ℕ) → Signature → Call Signature

module _ {L I Signature Origin : Type 0} (c : Currency L) (t : ItemTransfer I) (k : Keys Signature)
    (sys : System Origin) where
  unfoldable pub dispatch : Aura → Origin → Call Signature → Action (World L I) (Unit {0})
  dispatch aura o (create_call p m u) = create_auction c t sys o p m u
  dispatch aura o (add_item_call i item) = add_item c t sys o i item
  dispatch aura o (setup_call i b e p) = setup_moments c t sys o i b e p
  dispatch aura o (pause_call i) = pause_auction c t sys o i
  dispatch aura o (resume_call i) = resume_auction c t sys o i
  dispatch aura o (stop_call i) = stop_auction c t sys o i
  dispatch aura o (participate_call i price) = participate_auction c t sys o aura.last i price
  dispatch aura o (start_passive_call is sig) = start_auctions_passive c t k sys aura o is sig
  dispatch aura o (stop_passive_call is sig) = stop_auctions_passive c t k sys aura o is sig

  -- A history of calls; what happens between them to the ledger and the items is any function.
  unfoldable pub run :
      List (Aura × Origin × Call Signature × (L × I → L × I)) → World L I → World L I
  run [] w = w
  run ((aura, o, call, between) ∷ rest) w =
      let w' = (dispatch aura o call w).1 in
      let (l, i) = between (w'.ledger, w'.items) in run rest (record w' { ledger = l; items = i })

-- The world before the first call.
abbrev pub genesis : {L I : Type 0} → L → I → World L I
genesis l i = record { store = empty_store; ledger = l; items = i }
