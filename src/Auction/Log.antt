-- ===== src/Auction/Log.antt =====
-- The events of auction/mod.rs against its storage.
use archer_in_zoo.Prelude.{
  Bool-cases, Option-cases, inl, inr, ℕ, ◌≡◌, refl, sym, ap, ◌∙◌, true, Option, none, some, List,
  [], ◌∷◌, ◌++◌, arith, ◌==◌, if◌then◌else◌, update,
}
use archer_in_zoo.System.{System}
use archer_in_zoo.Traits.{ItemTransfer}
use archer_in_zoo.Auction.Types.{
  Auction, AuctionStatus, pending_start, Event, bidder_updated, auction_updated, Store, pending_vec,
  active_vec,
}
use archer_in_zoo.Auction.Currency.{Currency}
use archer_in_zoo.Auction.Store.{
  add_all_to_set, remove_all_from_set, insert_auction, change_auction_status,
  do_participate_auction,
}
use archer_in_zoo.Auction.Passive.{Keys, Aura}
use archer_in_zoo.Auction.Dispatch.{Call, run, genesis}
use archer_in_zoo.Auction.Steps.{
  Write, funds, creates, plans, moves, bids, queues, unqueues, IsNew, Reach, here, next,
}
use archer_in_zoo.Auction.Steps.Unsigned.{run-Reach}
use archer_in_zoo.Auction.WellFormed.{WellFormed, empty-WellFormed, Reach-WellFormed}

-- What an observer of the events knows of an auction: its status and its latest bidder.
pub record Seen : Type 0 where
  pub status : AuctionStatus
  pub bidder : Option ℕ

abbrev unseen : Seen
unseen = record { status = pending_start; bidder = none }

-- What one event tells of the auction `i`.
abbrev hear : (i : ℕ) → Seen → Event → Seen
hear i v (bidder_updated j account price remain) =
    if i == j then record v { bidder = some account } else v
hear i v (auction_updated j old new) = if i == j then record v { status = new } else v

abbrev listen : (i : ℕ) → Seen → List Event → Seen
listen i v [] = v
listen i v (e ∷ es) = listen i (hear i v e) es

-- What the events tell of the auction `i`, to one who has heard of no auction before.
abbrev pub replay : (i : ℕ) → List Event → Seen
replay i es = listen i unseen es

-- What the storage has of it; an auction that does not exist looks like a new one.
abbrev pub stored : Option Auction → Seen
stored none = unseen
stored (some a) = record {
  status = a.status;
  bidder = elim a.latest_participate [ none ↦ none | some (account, moment) ↦ some account ];
}

listen-snoc :
    (i : ℕ) (v : Seen) (es : List Event) (e : Event)
    → listen i v (es ++ e ∷ []) ≡ hear i (listen i v es) e
listen-snoc i v [] e = refl
listen-snoc i v (d ∷ es) e = listen-snoc i (hear i v d) es e

-- The events tell what the storage has.
abbrev Told : Store → Type 0
Told s = (i : ℕ) → replay i s.events ≡ stored (s.auctions i)

-- A write at `j`, and an event that tells of it.
put_told :
    (f : ℕ → Option Auction) (j : ℕ) (x : Option Auction) (v v' : Seen) (i : ℕ)
    → v ≡ stored (f i)
    → ((i == j) ≡ true → v' ≡ stored x)
    → (if i == j then v' else v) ≡ stored (update f j x i)
put_told f j x v v' i told told' = elim (Bool-cases (i == j)) [
  | inl same ↦ rw same (told' same)
  | inr apart ↦ rw apart told
]

-- A write at `j` that no event tells of.
put_untold :
    (f : ℕ → Option Auction) (j : ℕ) (x : Option Auction) (v : Seen) (i : ℕ)
    → v ≡ stored (f i)
    → stored x ≡ stored (f j)
    → v ≡ stored (update f j x i)
put_untold f j x v i told same_seen = elim (Bool-cases (i == j)) [
  | inl same ↦
      let e : i ≡ j = ground (arith, same) in
      rw same (told ∙ ap (λ q. stored (f q)) e ∙ sym same_seen)
  | inr apart ↦ rw apart told
]

stored_eq :
    (a a' : Auction)
    → a'.status ≡ a.status
    → a'.latest_participate ≡ a.latest_participate
    → stored (some a') ≡ stored (some a)
stored_eq a a' st latest = rw (st, latest) refl

-- No auction has the next number yet.
next-none : (s : Store) → WellFormed s → s.auctions s.next_auction_id ≡ none
next-none s w = elim (Option-cases (s.auctions s.next_auction_id)) [
  | inl e ↦ e
  | inr (a, e) ↦ let no = rw e at (w.numbered s.next_auction_id) in ground (arith, no)
]

new-unseen : (i : ℕ) (a : Auction) → IsNew i a → stored (some a) ≡ unseen
new-unseen i a new = rw (new.status, new.latest_participate) refl

found_at :
    (s : Store) (i j : ℕ) (a : Auction)
    → s.auctions j ≡ some a
    → (i == j) ≡ true
    → Told s
    → replay i s.events ≡ stored (some a)
found_at s i j a found same h =
    let e : i ≡ j = ground (arith, same) in
    h i ∙ ap (λ q. stored (s.auctions q)) e ∙ ap stored found

Write-Told : {s s' : Store} → Write s s' → WellFormed s → Told s → Told s'
unfolding insert_auction change_auction_status do_participate_auction add_all_to_set
    remove_all_from_set archer_in_zoo.Auction.Store.deposit_event
Write-Told {s} (funds l b) w h = h
Write-Told {s} (creates a room new) w h = λ i.
    put_untold s.auctions s.next_auction_id (some a) _ i (h i)
      (new-unseen s.next_auction_id a new ∙ sym (ap stored (next-none s w)))
Write-Told {s} (plans j a a' found p p' latest terms) w h = λ i.
    put_untold s.auctions j (some a') _ i (h i)
      (stored_eq a a' (p' ∙ sym p) latest ∙ sym (ap stored found))
Write-Told {s} (moves j a old new found m) w h = λ i.
    listen-snoc i unseen s.events _
    ∙ put_told s.auctions j _ _ _ i (h i) (λ same. rw (found, found_at s i j a found same h) refl)
Write-Told {s} (bids last j account price a found m) w h = λ i.
    listen-snoc i unseen s.events _
    ∙ put_told s.auctions j _ _ _ i (h i) (λ same. rw (found, found_at s i j a found same h) refl)
Write-Told {s} (queues pending_vec is) w h = h
Write-Told {s} (queues active_vec is) w h = h
Write-Told {s} (unqueues pending_vec is) w h = h
Write-Told {s} (unqueues active_vec is) w h = h

Reach-Told : {s s' : Store} → Reach s s' → WellFormed s → Told s → Told s'
Reach-Told here w h = h
Reach-Told (next r x) w h = Write-Told x (Reach-WellFormed r w) (Reach-Told r w h)

module _ {L I Signature Origin : Type 0} (c : Currency L) (t : ItemTransfer I) (k : Keys Signature)
    (sys : System Origin) where
  -- After every history of calls from the empty storage, the events that were deposited tell each
  -- auction's status and latest bidder: one who has heard them all in order, and starts each auction as
  -- not started and without a bid, has what the storage has, and has heard of no auction that does not
  -- exist.
  pub replay-run :
      (calls : List (Aura × Origin × Call Signature × (L × I → L × I))) (l : L) (i : I) (j : ℕ)
      → let s = (run c t k sys calls (genesis l i)).store in
        replay j s.events ≡ stored (s.auctions j)
  replay-run calls l i j =
      Reach-Told (run-Reach c t k sys calls (genesis l i)) empty-WellFormed (λ q. refl) j
