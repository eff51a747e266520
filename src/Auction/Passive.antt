-- ===== src/Auction/Passive.antt =====
-- The unsigned calls of auction/mod.rs, which the off-chain workers of the authorities send.
use archer_in_zoo.Prelude.{
  ℕ, Bool, true, false, Option, none, some, List, [], ◌∷◌, if◌then◌else◌, contains,
}
use archer_in_zoo.Outcome.{
  Error, Action, gets, or_raise, modify, ensure, ◌>>=◌, ◌>>◌, bad_origin, should_be_pending_start,
  should_be_non_stopped, invalid_signature, non_existent_public_key,
}
use archer_in_zoo.System.{System}
use archer_in_zoo.Traits.{ItemTransfer}
use archer_in_zoo.Auction.Types.{
  AuctionStatus, pending_start, active, stopped, Store, active_vec, pending_vec,
}
use archer_in_zoo.Auction.Currency.{Currency, World, modify_store}
use archer_in_zoo.Auction.Store.{
  is_auctions_with_status, change_auction_status, remove_all_from_set, add_all_to_set,
}
use archer_in_zoo.Auction.Calls.{settle_if_started}

-- `T::AuthorityId`: verification and signing of an encoded payload by a key. Keys are only compared.
pub record Keys (Signature : Type 0) : Type 0 where
  pub encode : (auction_ids : List ℕ) → List ℕ
  pub verify : (key : ℕ) → (payload : List ℕ) → Signature → Bool
  pub sign : (key : ℕ) → (payload : List ℕ) → Option Signature

-- What the aura module and the node's key store hold when a call runs.
pub record Aura : Type 0 where
  pub last : ℕ
  pub authorities : List ℕ
  pub local_keys : List ℕ

-- `find_map` over the authorities.
unfoldable pub find_key : (local_keys authorities : List ℕ) → Option ℕ
find_key local_keys [] = none
find_key local_keys (a ∷ rest) = if contains a local_keys then some a else find_key local_keys rest

unfoldable pub authority_id : Aura → Option ℕ
unfolding find_key
authority_id aura = find_key aura.local_keys aura.authorities

unfoldable pub start_each : (auction_ids : List ℕ) → Store → Store
unfolding change_auction_status
start_each [] s = s
start_each (i ∷ is) s = start_each is (change_auction_status i pending_start active s)

module _ {L I Signature Origin : Type 0} (k : Keys Signature) (sys : System Origin) (aura : Aura)
    (origin : Origin) where
  -- The checks that both calls make before they change anything.
  abbrev pub admitted :
      (auction_ids : List ℕ)
      → Signature
      → AuctionStatus
      → (not_equal : Bool) → Error
      → Action (World L I) (Unit {0})
  admitted auction_ids signature status not_equal message = do
    ensure (sys.ensure_none origin) bad_origin
    ensure (← gets (λ w. is_auctions_with_status auction_ids status not_equal w.store)) message
    key ← or_raise (authority_id aura) non_existent_public_key
    ensure (k.verify key (k.encode auction_ids) signature) invalid_signature

module _ {L I : Type 0} (c : Currency L) (t : ItemTransfer I) where
  -- The body of the loop: an error of the settlement is passed over, with what it has written.
  unfoldable pub stop_one : (auction_id : ℕ) → World L I → World L I
  unfolding settle_if_started change_auction_status
  stop_one i w = elim (w.store.auctions i) [
    | none ↦ w
    | some a ↦ modify_store (change_auction_status i a.status stopped) (settle_if_started c t a w).1
  ]

  unfoldable pub stop_each : (auction_ids : List ℕ) → World L I → World L I
  unfolding stop_one
  stop_each [] w = w
  stop_each (i ∷ is) w = stop_each is (stop_one i w)

  module _ {Signature Origin : Type 0} (k : Keys Signature) (sys : System Origin) (aura : Aura)
      (origin : Origin) where
    unfoldable pub start_auctions_passive :
        (auction_ids : List ℕ) → Signature → Action (World L I) (Unit {0})
    unfolding is_auctions_with_status authority_id start_each remove_all_from_set add_all_to_set
    start_auctions_passive auction_ids signature = do
      admitted k sys aura origin auction_ids signature pending_start false should_be_pending_start
      modify (modify_store (start_each auction_ids))
      modify (modify_store (remove_all_from_set pending_vec auction_ids))
      modify (modify_store (add_all_to_set active_vec auction_ids))

    unfoldable pub stop_auctions_passive :
        (auction_ids : List ℕ) → Signature → Action (World L I) (Unit {0})
    unfolding is_auctions_with_status authority_id stop_each remove_all_from_set
    stop_auctions_passive auction_ids signature = do
      admitted k sys aura origin auction_ids signature stopped true should_be_non_stopped
      modify (stop_each auction_ids)
      modify (modify_store (remove_all_from_set active_vec auction_ids))
