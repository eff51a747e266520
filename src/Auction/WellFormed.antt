-- ===== src/Auction/WellFormed.antt =====
-- When the storage of the auctions is well formed, and that each write of a call keeps it so.
use archer_in_zoo.Prelude.{
  ℕ, ◌≡◌, ◌≤◌, refl, ◌∙◌, true, Option, none, some, arith, ◌==◌, Bool-cases, inl, inr, is_some, ltb,
  update,
}
use archer_in_zoo.Auction.Types.{
  Auction, Store, AuctionStatus, pending_start, active, auction_id_max, empty_store, pending_vec,
  active_vec, paused, stopped,
}
use archer_in_zoo.Auction.Store.{
  add_all_to_set, remove_all_from_set, insert_auction, change_auction_status,
  do_participate_auction, put_auction,
}
use archer_in_zoo.Auction.Steps.{
  Write, funds, creates, plans, moves, bids, queues, unqueues, Reach, here, next, can_move,
}

pub record WellFormed (s : Store) : Type 0 where
  pub numbered : (i : ℕ) → is_some (s.auctions i) ≡ ltb i s.next_auction_id
  pub bounded : s.next_auction_id ≤ auction_id_max
  pub ids : (i : ℕ) (a : Auction) → s.auctions i ≡ some a → a.id ≡ i
  -- Nobody has bid on an auction that has not started.
  pub no_early_bid :
      (i : ℕ) (a : Auction)
      → s.auctions i ≡ some a
      → a.status ≡ pending_start
      → a.latest_participate ≡ none

pub empty-WellFormed : WellFormed empty_store
empty-WellFormed = record {
  numbered = λ i. ground arith;
  bounded = omega arith;
  ids = λ i a e. cc;
  no_early_bid = λ i a e p. cc;
}

-- Only an auction that has not started moves to not started.
can_move-pending :
    (s s' : AuctionStatus) → can_move s s' ≡ true → s' ≡ pending_start → s ≡ pending_start
can_move-pending pending_start s' m e = refl
can_move-pending paused s' m e = ground arith
can_move-pending active s' m e = ground arith
can_move-pending stopped s' m e = ground arith

-- What holds of every stored auction still holds after one write that it holds of.
pub update-Stored :
    (P : ℕ → Auction → Type 0) (f : ℕ → Option Auction) (j : ℕ) (x : Option Auction)
    → ((i : ℕ) (a : Auction) → f i ≡ some a → P i a)
    → ((a : Auction) → x ≡ some a → P j a)
    → (i : ℕ) (a : Auction) → update f j x i ≡ some a
    → P i a
update-Stored P f j x old new i a e = elim (Bool-cases (i == j)) [
  | inl same ↦ let at_j : i ≡ j = ground arith in rw at_j (new a (rw same at e))
  | inr other ↦ old i a (rw other at e)
]

pub some_eq : {a b : Auction} → some a ≡ some b → a ≡ b
some_eq e = cc

abbrev IsNumbered : ℕ → Auction → Type 0
IsNumbered i a = a.id ≡ i

abbrev IsQuiet : ℕ → Auction → Type 0
IsQuiet i a = a.status ≡ pending_start → a.latest_participate ≡ none

-- One write of an auction with its number, where an early auction has no bid.
put-WellFormed :
    (s s' : Store) (j : ℕ) (a : Auction)
    → WellFormed s
    → s'.auctions ≡ update s.auctions j (some a)
    → ((i : ℕ) → is_some (s'.auctions i) ≡ ltb i s'.next_auction_id)
    → s'.next_auction_id ≤ auction_id_max
    → IsNumbered j a
    → IsQuiet j a
    → WellFormed s'
put-WellFormed s s' j a h e numbered bounded mine quiet = record {
  numbered = numbered;
  bounded = bounded;
  ids = rw e (update-Stored IsNumbered s.auctions j (some a) h.ids (λ b q. rw (← some_eq q) mine));
  no_early_bid =
      rw e (
        update-Stored IsQuiet s.auctions j (some a) h.no_early_bid (λ b q. rw (← some_eq q) quiet));
}

pub Write-WellFormed : {s s' : Store} → Write s s' → WellFormed s → WellFormed s'
unfolding insert_auction change_auction_status do_participate_auction add_all_to_set
    remove_all_from_set
Write-WellFormed (funds l b) h = record {
  numbered = h.numbered;
  bounded = h.bounded;
  ids = h.ids;
  no_early_bid = h.no_early_bid;
}
Write-WellFormed {s} (creates a room new) h =
    put-WellFormed s (insert_auction s.next_auction_id a s) s.next_auction_id a h refl
      (λ i. ground (arith, h.numbered i, h.bounded)) (ground (arith, h.bounded)) new.id
      (λ p. new.latest_participate)
Write-WellFormed {s} (plans j a a' found p p' latest terms) h =
    put-WellFormed s (put_auction j a' s) j a' h refl
      (λ i. ground (arith, h.numbered i, h.numbered j, found)) h.bounded
      (terms.id ∙ h.ids j a found) (λ q. latest ∙ h.no_early_bid j a found p)
Write-WellFormed {s} (moves j a old new found m) h =
    put-WellFormed s (change_auction_status j old new s) j (record a { status = new }) h (rw found)
      (λ i. ground (arith, h.numbered i, h.numbered j, found)) h.bounded (h.ids j a found)
      (λ q. h.no_early_bid j a found (can_move-pending a.status new m q))
Write-WellFormed {s} (bids last j account price a found m) h =
    put-WellFormed s (do_participate_auction last j account price s) j
      (record a { latest_participate = some (account, last) }) h (rw found)
      (λ i. ground (arith, h.numbered i, h.numbered j, found)) h.bounded (h.ids j a found) (λ q. cc)
Write-WellFormed (queues pending_vec is) h = record {
  numbered = h.numbered;
  bounded = h.bounded;
  ids = h.ids;
  no_early_bid = h.no_early_bid;
}
Write-WellFormed (queues active_vec is) h = record {
  numbered = h.numbered;
  bounded = h.bounded;
  ids = h.ids;
  no_early_bid = h.no_early_bid;
}
Write-WellFormed (unqueues pending_vec is) h = record {
  numbered = h.numbered;
  bounded = h.bounded;
  ids = h.ids;
  no_early_bid = h.no_early_bid;
}
Write-WellFormed (unqueues active_vec is) h = record {
  numbered = h.numbered;
  bounded = h.bounded;
  ids = h.ids;
  no_early_bid = h.no_early_bid;
}

pub Reach-WellFormed : {s s' : Store} → Reach s s' → WellFormed s → WellFormed s'
Reach-WellFormed here h = h
Reach-WellFormed (next r w) h = Write-WellFormed w (Reach-WellFormed r h)
