-- ===== src/Auction/Sweeps.antt =====
-- What the two unsigned calls do to the auctions of their lists.
use archer_in_zoo.Prelude.{
  ℕ, ◌≡◌, refl, ap, ◌∙◌, true, false, Option, none, some, List, [], ◌∷◌, ◌==◌, arith, if◌then◌else◌,
  Bool-cases, Option-cases, inl, inr, contains,
}
use archer_in_zoo.Outcome.{ok, should_be_pending_start, should_be_non_stopped}
use archer_in_zoo.System.{System}
use archer_in_zoo.Traits.{ItemTransfer}
use archer_in_zoo.Auction.Types.{Auction, Store, AuctionStatus, pending_start, active, stopped}
use archer_in_zoo.Auction.Currency.{Currency, World}
use archer_in_zoo.Auction.Store.{
  with_status, change_auction_status, remove_all_from_set, add_all_to_set,
}
use archer_in_zoo.Auction.Calls.{settle_if_started}
use archer_in_zoo.Auction.Passive.{
  Keys, Aura, start_each, stop_one, stop_each, start_auctions_passive, stop_auctions_passive,
}
use archer_in_zoo.Auction.Steps.Ensured.{admitted-cases}
use archer_in_zoo.Auction.Steps.Funds.{settle_if_started-OnlyFunds}

-- The auction `i` after those of a list were given a status.
abbrev pub swept : AuctionStatus → (ids : List ℕ) → (i : ℕ) → Option Auction → Option Auction
swept st ids i a = if contains i ids then with_status st a else a

-- One auction of the list first, and then the rest.
swept-cons :
    (st : AuctionStatus) (j : ℕ) (js : List ℕ) (i : ℕ) (a : Option Auction)
    → swept st js i (if i == j then with_status st a else a) ≡ swept st (j ∷ js) i a
swept-cons st j js i none = ground arith
swept-cons st j js i (some a) = ground arith

change-auctions :
    (j : ℕ) (old new : AuctionStatus) (i : ℕ) (s : Store)
    → (change_auction_status j old new s).auctions i
      ≡ (if i == j then with_status new (s.auctions i) else s.auctions i)
unfolding change_auction_status
change-auctions j old new i s = elim (Bool-cases (i == j)) [
  | inl same ↦ let e : i ≡ j = ground arith in rw (same, e) refl
  | inr apart ↦ rw apart refl
]

start_each-auctions :
    (ids : List ℕ) (i : ℕ) (s : Store)
    → (start_each ids s).auctions i ≡ swept active ids i (s.auctions i)
unfolding start_each
start_each-auctions [] i s = refl
start_each-auctions (j ∷ js) i s =
    start_each-auctions js i (change_auction_status j pending_start active s)
    ∙ ap (swept active js i) (change-auctions j pending_start active i s)
    ∙ swept-cons active j js i (s.auctions i)

module _ {L I : Type 0} (c : Currency L) (t : ItemTransfer I) where
  pub stop_one-auctions :
      (j i : ℕ) (w : World L I)
      → (stop_one c t j w).store.auctions i
        ≡ (if i == j then with_status stopped (w.store.auctions i) else w.store.auctions i)
  unfolding stop_one
  stop_one-auctions j i w = elim (Option-cases (w.store.auctions j)) [
    | inl missing ↦ rw (missing, stop_one) (ground (arith, missing))
    | inr (a, found) ↦
        let w1 = (settle_if_started c t a w).1 in
        let same : w1.store.auctions ≡ w.store.auctions =
          ap (λ s. s.auctions) (settle_if_started-OnlyFunds c t a w) in
        rw (found, stop_one)
          (change-auctions j a.status stopped i w1.store
            ∙ ap (λ f. if i == j then with_status stopped (f i) else f i) same)
  ]

  stop_each-auctions :
      (ids : List ℕ) (i : ℕ) (w : World L I)
      → (stop_each c t ids w).store.auctions i ≡ swept stopped ids i (w.store.auctions i)
  unfolding stop_each
  stop_each-auctions [] i w = refl
  stop_each-auctions (j ∷ js) i w =
      stop_each-auctions js i (stop_one c t j w)
      ∙ ap (swept stopped js i) (stop_one-auctions j i w)
      ∙ swept-cons stopped j js i (w.store.auctions i)

  module _ {Signature Origin : Type 0} (k : Keys Signature) (sys : System Origin) (aura : Aura)
      (o : Origin) (ids : List ℕ) (sig : Signature) (w : World L I) where
    -- A call of `start_auctions_passive` that succeeds makes the auctions of its list active, and
    -- leaves every other as it was.
    pub start_auctions_passive-auctions :
        (start_auctions_passive c t k sys aura o ids sig w).0 ≡ ok tt
        → (i : ℕ)
        → (start_auctions_passive c t k sys aura o ids sig w).1.store.auctions i
          ≡ swept active ids i (w.store.auctions i)
    unfolding start_auctions_passive remove_all_from_set add_all_to_set
    start_auctions_passive-auctions e i =
        elim (admitted-cases k sys aura o ids sig pending_start false should_be_pending_start w) [
          | inl (e', bad) ↦ let no = rw bad at e in cc
          | inr g ↦ rw g.result (start_each-auctions ids i w.store)
        ]

    -- A call of `stop_auctions_passive` that succeeds makes the auctions of its list stopped, whether
    -- or not their settlements have succeeded, and leaves every other as it was.
    pub stop_auctions_passive-auctions :
        (stop_auctions_passive c t k sys aura o ids sig w).0 ≡ ok tt
        → (i : ℕ)
        → (stop_auctions_passive c t k sys aura o ids sig w).1.store.auctions i
          ≡ swept stopped ids i (w.store.auctions i)
    unfolding stop_auctions_passive remove_all_from_set
    stop_auctions_passive-auctions e i =
        elim (admitted-cases k sys aura o ids sig stopped true should_be_non_stopped w) [
          | inl (e', bad) ↦ let no = rw bad at e in cc
          | inr g ↦ rw g.result (stop_each-auctions ids i w)
        ]
