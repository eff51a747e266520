-- ===== src/Auction/Validation.antt =====
-- `validate_unsigned` against the calls that it lets into a block, and against the worker.
use archer_in_zoo.Prelude.{
  ℕ, ◌≡◌, refl, sym, Bool, true, false, some, List, [], ◌∷◌, arith, Bool-cases, Option-cases, ◌⊎◌,
  inl, inr,
}
use archer_in_zoo.Outcome.{Result, ok, err}
use archer_in_zoo.System.{System}
use archer_in_zoo.Traits.{ItemTransfer}
use archer_in_zoo.Auction.Types.{Auction, Store, AuctionStatus, pending_start, stopped}
use archer_in_zoo.Auction.Currency.{Currency, World}
use archer_in_zoo.Auction.Store.{is_auctions_with_status, has_status}
use archer_in_zoo.Auction.Passive.{
  Keys, Aura, authority_id, start_auctions_passive, stop_auctions_passive,
}
use archer_in_zoo.Auction.Offchain.{
  UnsignedCall, start_call, stop_call, sent, start_due, stop_due, due_ids, starting_auction_ids,
  stoping_auction_ids, sign_unchecked_payload, send_tx, offchain, TransactionValidity, valid,
  bad_proof, stale, invalid_call, validate_unsigned,
}
use archer_in_zoo.Auction.WellFormed.{WellFormed}

abbrev pub is_valid : {A : Type 0} → TransactionValidity A → Bool
is_valid (valid tag) = true
is_valid bad_proof = false
is_valid stale = false
is_valid invalid_call = false

abbrev pub is_ok : {A : Type 0} → Result A → Bool
is_ok (ok a) = true
is_ok (err e) = false

module _ {L I Signature Origin : Type 0} (c : Currency L) (t : ItemTransfer I) (k : Keys Signature)
    (sys : System Origin) (aura : Aura) (o : Origin) (ids : List ℕ) (sig : Signature)
    (w : World L I) where
  start_valid-eq :
      sys.ensure_none o ≡ true
      → is_valid (validate_unsigned k aura (some (start_call ids sig)) w.store)
        ≡ is_ok (start_auctions_passive c t k sys aura o ids sig w).0
  unfolding validate_unsigned start_auctions_passive
  start_valid-eq unsigned = ground (arith, unsigned)

  stop_valid-eq :
      sys.ensure_none o ≡ true
      → is_valid (validate_unsigned k aura (some (stop_call ids sig)) w.store)
        ≡ is_ok (stop_auctions_passive c t k sys aura o ids sig w).0
  unfolding validate_unsigned stop_auctions_passive
  stop_valid-eq unsigned = ground (arith, unsigned)

  -- With an unsigned origin, `validate_unsigned` lets a start or a stop transaction in exactly where
  -- the call itself succeeds on the same storage.
  pub validate_unsigned-eq :
      sys.ensure_none o ≡ true
      → (is_valid (validate_unsigned k aura (some (start_call ids sig)) w.store)
          ≡ is_ok (start_auctions_passive c t k sys aura o ids sig w).0)
        × (is_valid (validate_unsigned k aura (some (stop_call ids sig)) w.store)
            ≡ is_ok (stop_auctions_passive c t k sys aura o ids sig w).0)
  validate_unsigned-eq unsigned = (start_valid-eq unsigned, stop_valid-eq unsigned)

pub due_ids-HasStatus :
    (due : Auction → Bool) (st : AuctionStatus) (ne : Bool) (s : Store) (ids : List ℕ)
    → WellFormed s
    → ((a : Auction) → due a ≡ true → has_status (some a) st ne ≡ true)
    → is_auctions_with_status (due_ids due s.auctions ids) st ne s ≡ true
unfolding due_ids is_auctions_with_status
due_ids-HasStatus due st ne s [] h d = refl
due_ids-HasStatus due st ne s (i ∷ is) h d =
    let rest = due_ids-HasStatus due st ne s is h d in
    elim (Option-cases (s.auctions i)) [
      | inl e ↦ rw (e, due_ids) rest
      | inr (a, e) ↦ elim (Bool-cases (due a)) [
        | inr early ↦ rw (e, early, due_ids) rest
        | inl now ↦ rw (e, due_ids, now, is_auctions_with_status, h.ids i a e, e, d a now) rest
      ]
    ]

pub start_due-pending :
    (now : ℕ) (a : Auction)
    → start_due now a ≡ true
    → has_status (some a) pending_start false ≡ true
unfolding start_due has_status
start_due-pending now a e = ground (arith, e)

pub stop_due-running :
    (now : ℕ) (s : Store) (a : Auction)
    → stop_due now s a ≡ true
    → has_status (some a) stopped true ≡ true
unfolding stop_due has_status
stop_due-running now s a e = ground (arith, e)

module _ {Signature : Type 0} (k : Keys Signature) (aura : Aura)
    (submit : UnsignedCall Signature → Bool) where
  -- A call that is sent carries the ids, and a signature of the local authority's over them.
  pub record SentBy (make : List ℕ → Signature → UnsignedCall Signature) (ids : List ℕ)
      (call : UnsignedCall Signature) : Type 0 where
    pub key : ℕ
    pub has_key : authority_id aura ≡ some key
    pub signature : Signature
    pub signed : k.sign key (k.encode ids) ≡ some signature
    pub call_is : call ≡ make ids signature

  sent_eq : {x y : UnsignedCall Signature} → sent x ≡ sent y → x ≡ y
  sent_eq e = cc

  pub send_tx-SentBy :
      (make : List ℕ → Signature → UnsignedCall Signature) (ids : List ℕ)
      (call : UnsignedCall Signature)
      → send_tx k aura submit make ids ≡ sent call
      → SentBy make ids call
  unfolding send_tx sign_unchecked_payload
  send_tx-SentBy make ids call e = elim (Option-cases (authority_id aura)) [
    | inl no_key ↦ let no = rw (no_key, send_tx, sign_unchecked_payload) at e in cc
    | inr (key, has_key) ↦ elim (Option-cases (k.sign key (k.encode ids))) [
      | inl unsigned ↦ let no = rw (has_key, unsigned, send_tx, sign_unchecked_payload) at e in cc
      | inr (sig, signed) ↦ elim (Bool-cases (submit (make ids sig))) [
        | inr refused ↦
            let no = rw (has_key, signed, refused, send_tx, sign_unchecked_payload) at e in cc
        | inl taken ↦ record {
          key = key;
          has_key = has_key;
          signature = sig;
          signed = signed;
          call_is =
              sym (sent_eq (rw (has_key, signed, taken, send_tx, sign_unchecked_payload) at e));
        }
      ]
    ]
  ]

  pub start_call-valid :
      (ids : List ℕ) (sig : Signature) (key : ℕ) (s : Store)
      → authority_id aura ≡ some key
      → is_auctions_with_status ids pending_start false s ≡ true
      → k.verify key (k.encode ids) sig ≡ true
      → is_valid (validate_unsigned k aura (some (start_call ids sig)) s) ≡ true
  unfolding validate_unsigned
  start_call-valid ids sig key s own all genuine = ground (arith, own, all, genuine)

  pub stop_call-valid :
      (ids : List ℕ) (sig : Signature) (key : ℕ) (s : Store)
      → authority_id aura ≡ some key
      → is_auctions_with_status ids stopped true s ≡ true
      → k.verify key (k.encode ids) sig ≡ true
      → is_valid (validate_unsigned k aura (some (stop_call ids sig)) s) ≡ true
  unfolding validate_unsigned
  stop_call-valid ids sig key s own all genuine = ground (arith, own, all, genuine)

  -- Where verification accepts every signature that signing makes, each transaction that the worker
  -- submits on a well-formed storage is valid on that storage.
  pub offchain_valid :
      (s : Store) (call : UnsignedCall Signature)
      → WellFormed s
      → ((key : ℕ) (payload : List ℕ) (sig : Signature)
          → k.sign key payload ≡ some sig
          → k.verify key payload sig ≡ true)
      → ((offchain k aura submit s).0 ≡ sent call) ⊎ ((offchain k aura submit s).1 ≡ sent call)
      → is_valid (validate_unsigned k aura (some call) s) ≡ true
  unfolding offchain starting_auction_ids stoping_auction_ids
  offchain_valid s call h genuine (inl e) =
      let g = send_tx-SentBy start_call (starting_auction_ids aura.last s) call e in
      rw g.call_is (
        start_call-valid (starting_auction_ids aura.last s) g.signature g.key s g.has_key
          (due_ids-HasStatus (start_due aura.last) pending_start false s s.pending_auctions h
            (start_due-pending aura.last))
          (genuine g.key _ g.signature g.signed))
  offchain_valid s call h genuine (inr e) =
      let g = send_tx-SentBy stop_call (stoping_auction_ids aura.last s) call e in
      rw g.call_is (
        stop_call-valid (stoping_auction_ids aura.last s) g.signature g.key s g.has_key
          (due_ids-HasStatus (stop_due aura.last s) stopped true s s.active_auctions h
            (stop_due-running aura.last s))
          (genuine g.key _ g.signature g.signed))
