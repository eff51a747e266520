-- ===== src/Auction/Steps/Ensured.antt =====
-- What `_ensure_auction_with_status` has checked where it returns an auction.
use archer_in_zoo.Prelude.{
  ℕ, ◌≡◌, ◌⊎◌, inl, inr, refl, true, Option, none, some, arith, ◌==◌, Bool-cases, Option-cases,
  List, Bool,
}
use archer_in_zoo.Outcome.{
  Error, ok, err, auction_does_not_exist, only_owner_can_call, bad_origin, non_existent_public_key,
  invalid_signature,
}
use archer_in_zoo.Auction.Types.{
  AuctionStatus, pending_start, paused, active, stopped, same_status, error_str, Auction, Store,
}
use archer_in_zoo.System.{System}
use archer_in_zoo.Auction.Currency.{World}
use archer_in_zoo.Auction.Passive.{Keys, Aura, authority_id, admitted}
use archer_in_zoo.Auction.Store.{is_auctions_with_status, ensure_auction_with_status}

pub same_status_iff : (s t : AuctionStatus) → same_status s t ≡ true → s ≡ t
same_status_iff pending_start pending_start e = refl
same_status_iff paused paused e = refl
same_status_iff active active e = refl
same_status_iff stopped stopped e = refl
same_status_iff _ _ e = ground arith

abbrev pub HasStatus : Option AuctionStatus → Auction → Type 0
HasStatus none a = Unit
HasStatus (some st) a = a.status ≡ st

abbrev pub HasOwner : Option ℕ → Auction → Type 0
HasOwner none a = Unit
HasOwner (some account) a = a.owner ≡ account

-- The stored auction, as the checks found it.
pub record Ensured (i : ℕ) (st : Option AuctionStatus) (owner : Option ℕ) (s : Store) (a : Auction)
    : Type 0 where
  pub result : ensure_auction_with_status i st owner s ≡ (ok a, s)
  pub found : s.auctions i ≡ some a
  pub has_status : HasStatus st a
  pub has_owner : HasOwner owner a

abbrev pub EnsuredOrNot : ℕ → Option AuctionStatus → Option ℕ → Store → Type 0
EnsuredOrNot i st owner s =
    ((e : Error) × (ensure_auction_with_status i st owner s ≡ (err e, s)))
    ⊎ ((a : Auction) × Ensured i st owner s a)

check_found :
    (i : ℕ) (st : Option AuctionStatus) (owner : Option ℕ) (s : Store) (a : Auction)
    → s.auctions i ≡ some a
    → EnsuredOrNot i st owner s
unfolding ensure_auction_with_status
check_found i none none s a e =
    inr (a, record { result = rw e; found = e; has_status = tt; has_owner = tt })
check_found i none (some o) s a e = elim (Bool-cases (a.owner == o)) [
  | inl mine ↦
      inr
        (a, record { result = rw (e, mine); found = e; has_status = tt; has_owner = ground arith })
  | inr foreign ↦ inl (only_owner_can_call, rw (e, foreign))
]
check_found i (some st) none s a e = elim (Bool-cases (same_status a.status st)) [
  | inl same ↦ inr (
    a,
    record {
      result = rw (e, same);
      found = e;
      has_status = same_status_iff a.status st same;
      has_owner = tt;
    },
  )
  | inr different ↦ inl (error_str st, rw (e, different))
]
check_found i (some st) (some o) s a e = elim (Bool-cases (same_status a.status st)) [
  | inr different ↦ inl (error_str st, rw (e, different))
  | inl same ↦ elim (Bool-cases (a.owner == o)) [
    | inl mine ↦ inr (
      a,
      record {
        result = rw (e, same, mine);
        found = e;
        has_status = same_status_iff a.status st same;
        has_owner = ground arith;
      },
    )
    | inr foreign ↦ inl (only_owner_can_call, rw (e, same, foreign))
  ]
]

-- Either an error and nothing is written, or the auction.
pub ensure_auction-cases :
    (i : ℕ) (st : Option AuctionStatus) (owner : Option ℕ) (s : Store) → EnsuredOrNot i st owner s
unfolding ensure_auction_with_status
ensure_auction-cases i st owner s = elim (Option-cases (s.auctions i)) [
  | inl e ↦ inl (auction_does_not_exist, rw e)
  | inr (a, e) ↦ check_found i st owner s a e
]

-- The checks of a passive call, passed.
pub record Admitted {L I Signature Origin : Type 0} (k : Keys Signature) (sys : System Origin)
    (aura : Aura) (o : Origin) (ids : List ℕ) (sig : Signature) (st : AuctionStatus) (ne : Bool)
    (e : Error) (w : World L I) : Type 0 where
  pub result : admitted k sys aura o ids sig st ne e w ≡ (ok tt, w)
  pub unsigned : sys.ensure_none o ≡ true
  pub has_status : is_auctions_with_status ids st ne w.store ≡ true
  pub key : ℕ
  pub has_key : authority_id aura ≡ some key
  pub verified : k.verify key (k.encode ids) sig ≡ true

module _ {L I Signature Origin : Type 0} (k : Keys Signature) (sys : System Origin) (aura : Aura)
    (o : Origin) (ids : List ℕ) (sig : Signature) (st : AuctionStatus) (ne : Bool) (e : Error)
    (w : World L I) where
  -- Either an error and nothing is written, or all checks are passed.
  pub admitted-cases :
      ((e' : Error) × (admitted k sys aura o ids sig st ne e w ≡ (err e', w)))
      ⊎ Admitted k sys aura o ids sig st ne e w
  admitted-cases = elim (Bool-cases (sys.ensure_none o)) [
    | inr signed ↦ inl (bad_origin, rw signed)
    | inl unsigned ↦ elim (Bool-cases (is_auctions_with_status ids st ne w.store)) [
      | inr other ↦ inl (e, rw (unsigned, other))
      | inl all ↦ elim (Option-cases (authority_id aura)) [
        | inl none_local ↦ inl (non_existent_public_key, rw (unsigned, all, none_local))
        | inr (key, local) ↦ elim (Bool-cases (k.verify key (k.encode ids) sig)) [
          | inr forged ↦ inl (invalid_signature, rw (unsigned, all, local, forged))
          | inl genuine ↦ inr (record {
            result = rw (unsigned, all, local, genuine);
            unsigned = unsigned;
            has_status = all;
            key = key;
            has_key = local;
            verified = genuine;
          })
        ]
      ]
    ]
  ]
