-- ===== src/Auction/LifeCycle.antt =====
-- The life of one auction over any history of calls.
use archer_in_zoo.Prelude.{
  ℕ, ◌≡◌, ◌≤◌, refl, sym, ap, ◌∙◌, true, Option, some, List, arith, ◌==◌, Bool-cases, ◌⊎◌, inl, inr,
  update,
}
use archer_in_zoo.System.{System}
use archer_in_zoo.Traits.{ItemTransfer}
use archer_in_zoo.Auction.Types.{
  Auction, Store, AuctionStatus, pending_start, paused, active, stopped, pending_vec, active_vec,
}
use archer_in_zoo.Auction.Currency.{Currency, World}
use archer_in_zoo.Auction.Store.{
  add_all_to_set, remove_all_from_set, insert_auction, change_auction_status,
  do_participate_auction,
}
use archer_in_zoo.Auction.Passive.{Keys, Aura}
use archer_in_zoo.Auction.Dispatch.{Call, run}
use archer_in_zoo.Auction.Steps.{
  Write, funds, creates, plans, moves, bids, queues, unqueues, Reach, here, next, SameTerms,
  SamePlan, can_move,
}
use archer_in_zoo.Auction.Steps.Unsigned.{run-Reach}
use archer_in_zoo.Auction.WellFormed.{WellFormed, Reach-WellFormed, some_eq}

-- How far an auction has come: not started, running or paused, stopped.
abbrev pub stage : AuctionStatus → ℕ
stage pending_start = 0
stage paused = 1
stage active = 1
stage stopped = 2

-- An auction keeps its terms, never goes back a stage, keeps its item and times once it has left the
-- first stage, and keeps its latest bid once it has reached the last.
pub record Evolves (a a' : Auction) : Type 0 where
  pub terms : SameTerms a a'
  pub onward : stage a.status ≤ stage a'.status
  pub plan : (a.status ≡ pending_start) ⊎ SamePlan a a'
  pub settled : a.status ≡ stopped → a'.latest_participate ≡ a.latest_participate

-- Every auction of the first map is in the second, evolved.
abbrev AllEvolve : (f g : ℕ → Option Auction) → Type 0
AllEvolve f g =
    (i : ℕ) (a : Auction) → f i ≡ some a → (a' : Auction) × (g i ≡ some a') × Evolves a a'

same_terms : (a : Auction) → SameTerms a a
same_terms a = record {
  id = refl;
  owner = refl;
  begin_price = refl;
  upper_bound_price = refl;
  minimum_step = refl;
}

-- A new status, or a new latest bid, leaves the terms.
status_terms : (a : Auction) (st : AuctionStatus) → SameTerms a (record a { status = st })
status_terms a st = record {
  id = refl;
  owner = refl;
  begin_price = refl;
  upper_bound_price = refl;
  minimum_step = refl;
}

latest_terms :
    (a : Auction) (p : Option (ℕ × ℕ)) → SameTerms a (record a { latest_participate = p })
latest_terms a p = record {
  id = refl;
  owner = refl;
  begin_price = refl;
  upper_bound_price = refl;
  minimum_step = refl;
}

first_stage : (s s' : AuctionStatus) → stage s ≤ stage s' → s' ≡ pending_start → s ≡ pending_start
first_stage pending_start s' h e = refl
first_stage paused s' h e = ground arith
first_stage active s' h e = ground arith
first_stage stopped s' h e = ground arith

last_stage : (s s' : AuctionStatus) → stage s ≤ stage s' → s ≡ stopped → s' ≡ stopped
last_stage s stopped h e = refl
last_stage s pending_start h e = ground arith
last_stage s paused h e = ground arith
last_stage s active h e = ground arith

plan_trans :
    (a b d : Auction)
    → Evolves a b
    → (b.status ≡ pending_start) ⊎ SamePlan b d
    → (a.status ≡ pending_start) ⊎ SamePlan a b
    → (a.status ≡ pending_start) ⊎ SamePlan a d
plan_trans a b d p q (inl e) = inl e
plan_trans a b d p (inl e) (inr u) = inl (first_stage a.status b.status p.onward e)
plan_trans a b d p (inr v) (inr u) = inr (record {
  item = v.item ∙ u.item;
  start_at = v.start_at ∙ u.start_at;
  stop_at = v.stop_at ∙ u.stop_at;
  wait_period = v.wait_period ∙ u.wait_period;
})

Evolves-refl : (a : Auction) → Evolves a a
Evolves-refl a = record {
  terms = same_terms a;
  onward = omega arith;
  plan = inr (record { item = refl; start_at = refl; stop_at = refl; wait_period = refl });
  settled = λ e. refl;
}

Evolves-trans : (a b d : Auction) → Evolves a b → Evolves b d → Evolves a d
Evolves-trans a b d p q = record {
  terms = record {
    id = q.terms.id ∙ p.terms.id;
    owner = q.terms.owner ∙ p.terms.owner;
    begin_price = q.terms.begin_price ∙ p.terms.begin_price;
    upper_bound_price = q.terms.upper_bound_price ∙ p.terms.upper_bound_price;
    minimum_step = q.terms.minimum_step ∙ p.terms.minimum_step;
  };
  onward = omega (arith, p.onward, q.onward);
  plan = plan_trans a b d p q.plan p.plan;
  settled = λ e. q.settled (last_stage a.status b.status p.onward e) ∙ p.settled e;
}

can_move-stage : (s s' : AuctionStatus) → can_move s s' ≡ true → stage s ≤ stage s'
can_move-stage pending_start s' m = omega arith
can_move-stage paused s' m = ground arith
can_move-stage active s' m = ground arith
can_move-stage stopped s' m = ground arith

-- One write at `j` to an auction that evolves.
put-AllEvolve :
    (f : ℕ → Option Auction) (x : Option Auction) (j : ℕ) (a a' : Auction)
    → x ≡ some a'
    → f j ≡ some a
    → Evolves a a'
    → AllEvolve f (update f j x)
put-AllEvolve f x j a a' e found ev i b h = elim (Bool-cases (i == j)) [
  | inl same ↦
      let at_j : i ≡ j = ground arith in
      let this : b ≡ a = some_eq (sym h ∙ ap f at_j ∙ found) in (a', rw same e, rw this ev)
  | inr other ↦ (b, rw other h, Evolves-refl b)
]

kept-AllEvolve : (f : ℕ → Option Auction) → AllEvolve f f
kept-AllEvolve f i a h = (a, h, Evolves-refl a)

Write-AllEvolve : {s s' : Store} → Write s s' → WellFormed s → AllEvolve s.auctions s'.auctions
unfolding insert_auction change_auction_status do_participate_auction add_all_to_set
    remove_all_from_set
Write-AllEvolve {s} (funds l b) h = kept-AllEvolve s.auctions
Write-AllEvolve {s} (creates a room new) h =
    λ i b f. (b, ground (arith, h.numbered i, f), Evolves-refl b)
Write-AllEvolve {s} (plans j a a' found p p' latest terms) h =
    put-AllEvolve s.auctions _ j a a' refl found
      (record { terms = terms; onward = ground arith; plan = inl p; settled = λ q. latest })
Write-AllEvolve {s} (moves j a old new found m) h =
    put-AllEvolve s.auctions _ j a (record a { status = new }) (rw found) found
      (record {
        terms = status_terms a new;
        onward = can_move-stage a.status new m;
        plan = inr (record { item = refl; start_at = refl; stop_at = refl; wait_period = refl });
        settled = λ q. refl;
      })
Write-AllEvolve {s} (bids last j account price a found m) h =
    put-AllEvolve s.auctions _ j a (record a { latest_participate = some (account, last) })
      (rw found) found
      (record {
        terms = latest_terms a _;
        onward = omega arith;
        plan = inr (record { item = refl; start_at = refl; stop_at = refl; wait_period = refl });
        settled = λ q. cc;
      })
Write-AllEvolve {s} (queues pending_vec is) h = kept-AllEvolve s.auctions
Write-AllEvolve {s} (queues active_vec is) h = kept-AllEvolve s.auctions
Write-AllEvolve {s} (unqueues pending_vec is) h = kept-AllEvolve s.auctions
Write-AllEvolve {s} (unqueues active_vec is) h = kept-AllEvolve s.auctions

Reach-AllEvolve : {s s' : Store} → Reach s s' → WellFormed s → AllEvolve s.auctions s'.auctions
Reach-AllEvolve here h = λ i a f. (a, f, Evolves-refl a)
Reach-AllEvolve (next r w) h = λ i a f.
    let (b, g, ev) = Reach-AllEvolve r h i a f in
    let (d, k, ev') = Write-AllEvolve w (Reach-WellFormed r h) i b g in
    (d, k, Evolves-trans a b d ev ev')

module _ {L I Signature Origin : Type 0} (c : Currency L) (t : ItemTransfer I) (k : Keys Signature)
    (sys : System Origin) where
  -- Over every history of calls from a well-formed storage, an auction stays stored under its id,
  -- keeps its owner and its prices, never goes back from running to not started or from stopped to
  -- running, keeps its item and times once it has started, and keeps its latest bid once stopped.
  pub auction-Evolves :
      (calls : List (Aura × Origin × Call Signature × (L × I → L × I))) (w : World L I) (i : ℕ)
      (a : Auction)
      → WellFormed w.store
      → w.store.auctions i ≡ some a
      → (a' : Auction) × ((run c t k sys calls w).store.auctions i ≡ some a') × Evolves a a'
  auction-Evolves calls w i a h e = Reach-AllEvolve (run-Reach c t k sys calls w) h i a e

  -- Over every history the storage stays well formed: the auctions are those with a number below
  -- the next one, each under its own id, and none has a bid before its start.
  pub run-WellFormed :
      (calls : List (Aura × Origin × Call Signature × (L × I → L × I))) (w : World L I)
      → WellFormed w.store
      → WellFormed (run c t k sys calls w).store
  run-WellFormed calls w h = Reach-WellFormed (run-Reach c t k sys calls w) h
