-- ===== src/Auction/Offchain.antt =====
-- The off-chain worker of auction/mod.rs and the validation of the transactions that it submits.
use archer_in_zoo.Prelude.{
  ℕ, Bool, true, false, not, Option, none, some, List, [], ◌∷◌, if◌then◌else◌, ltb, leb,
}
use archer_in_zoo.Words.{wrapping_sub, moment_mod}
use archer_in_zoo.Auction.Types.{AuctionStatus, pending_start, stopped, same_status, Auction, Store}
use archer_in_zoo.Auction.Store.{is_auctions_with_status}
use archer_in_zoo.Auction.Funds.{bid_of}
use archer_in_zoo.Auction.Passive.{Keys, Aura, authority_id}

pub data OffchainErr : Type 0 where
  missing_key failed_signing submit_transaction : OffchainErr

-- The two unsigned calls.
pub data UnsignedCall (Signature : Type 0) : Type 0 where
  start_call stop_call : (auction_ids : List ℕ) → Signature → UnsignedCall Signature

pub data Sent (A : Type 0) : Type 0 where
  sent : A → Sent A
  failed : OffchainErr → Sent A

-- An auction is started once its start time has passed.
unfoldable pub start_due : (last_timestamp : ℕ) → Auction → Bool
start_due now a =
    if not (same_status a.status pending_start)
    then false
    else elim a.start_at [ none ↦ false | some start_at ↦ ltb start_at now ]

-- The end conditions that come from the latest bid.
unfoldable pub bid_ends : (now upper_bound_price : ℕ) → Auction → Store → Bool
bid_ends now upper a s = elim a.latest_participate [
  | none ↦ false
  | some (account_id, last_moment) ↦
      if leb upper (bid_of a.id account_id s) then true else elim a.wait_period [
        | none ↦ false
        | some wait_period ↦ ltb wait_period (wrapping_sub moment_mod now last_moment)
      ]
]

unfoldable pub stop_due : (last_timestamp : ℕ) → Store → Auction → Bool
unfolding bid_ends
stop_due now s a = if same_status a.status stopped then false else elim a.stop_at [
  | none ↦ false
  | some stop_at ↦
      if ltb stop_at now
      then true
      else elim a.upper_bound_price [ none ↦ false | some upper ↦ bid_ends now upper a s ]
]

-- The `filter_map` over the ids of one working list.
unfoldable pub due_ids : (Auction → Bool) → (auctions : ℕ → Option Auction) → List ℕ → List ℕ
due_ids due auctions [] = []
due_ids due auctions (i ∷ is) =
    let rest = due_ids due auctions is in
    elim (auctions i) [ none ↦ rest | some a ↦ if due a then a.id ∷ rest else rest ]

unfoldable pub starting_auction_ids : (last_timestamp : ℕ) → Store → List ℕ
unfolding due_ids start_due
starting_auction_ids now s = due_ids (start_due now) s.auctions s.pending_auctions

unfoldable pub stoping_auction_ids : (last_timestamp : ℕ) → Store → List ℕ
unfolding due_ids stop_due
stoping_auction_ids now s = due_ids (stop_due now s) s.auctions s.active_auctions

pub data TransactionValidity (A : Type 0) : Type 0 where
  -- The tag that the transaction provides.
  valid : A → TransactionValidity A
  bad_proof stale invalid_call : TransactionValidity A

module _ {Signature : Type 0} (k : Keys Signature) (aura : Aura) where
  unfoldable pub sign_unchecked_payload : (payload : List ℕ) → Sent Signature
  sign_unchecked_payload payload = elim (authority_id aura) [
    | none ↦ failed missing_key
    | some key ↦ elim (k.sign key payload) [ none ↦ failed failed_signing | some sig ↦ sent sig ]
  ]

  -- `submit` says whether the node's pool takes the transaction.
  module _ (submit : UnsignedCall Signature → Bool) where
    unfoldable pub send_tx :
        ((auction_ids : List ℕ) → Signature → UnsignedCall Signature)
        → (auction_ids : List ℕ) → Sent (UnsignedCall Signature)
    unfolding sign_unchecked_payload
    send_tx call auction_ids = elim (sign_unchecked_payload (k.encode auction_ids)) [
      | failed e ↦ failed e
      | sent sig ↦
          if submit (call auction_ids sig)
          then sent (call auction_ids sig)
          else failed submit_transaction
    ]

    -- What one run of the worker submits, or why it could not.
    unfoldable pub offchain : Store → Sent (UnsignedCall Signature) × Sent (UnsignedCall Signature)
    unfolding send_tx starting_auction_ids stoping_auction_ids
    offchain s = (
      send_tx start_call (starting_auction_ids aura.last s),
      send_tx stop_call (stoping_auction_ids aura.last s),
    )

    -- The hook after every block: only a potential validator runs the worker.
    unfoldable pub offchain_worker :
        (is_validator : Bool)
        → Store
        → Option (Sent (UnsignedCall Signature) × Sent (UnsignedCall Signature))
    unfolding offchain
    offchain_worker is_validator s = if is_validator then some (offchain s) else none

  abbrev pub checked_call :
      (auction_ids : List ℕ)
      → Signature
      → AuctionStatus
      → (not_equal : Bool) → Store
      → (authority : ℕ) → TransactionValidity (List ℕ × ℕ)
  checked_call auction_ids signature status not_equal s authority =
      if not (is_auctions_with_status auction_ids status not_equal s)
      then stale
      else if not (k.verify authority (k.encode auction_ids) signature)
      then bad_proof
      else valid (auction_ids, authority)

  -- `none` is any other call of the module.
  unfoldable pub validate_unsigned :
      Option (UnsignedCall Signature) → Store → TransactionValidity (List ℕ × ℕ)
  unfolding authority_id is_auctions_with_status
  validate_unsigned call s = elim (authority_id aura) [
    | none ↦ bad_proof
    | some authority ↦ elim call [
      | none ↦ invalid_call
      | some (start_call ids sig) ↦ checked_call ids sig pending_start false s authority
      | some (stop_call ids sig) ↦ checked_call ids sig stopped true s authority
    ]
  ]
