-- ===== src/Auction/Leads/Quiet.antt =====
-- Writes that leave the bids and the latest bidders.
use archer_in_zoo.Prelude.{
  ℕ, ◌≡◌, refl, true, Option, none, some, ◌==◌, arith, Bool-cases, inl, inr, update,
}
use archer_in_zoo.Auction.Types.{Auction, Store, AuctionStatus, pending_vec, active_vec}
use archer_in_zoo.Auction.Store.{
  with_status, insert_auction, change_auction_status, add_all_to_set, remove_all_from_set,
}
use archer_in_zoo.Auction.WellFormed.{WellFormed, Write-WellFormed}
use archer_in_zoo.Auction.Accounts.{missing_auction}
use archer_in_zoo.Auction.Steps.{
  Write, funds, creates, plans, moves, bids, queues, unqueues, is_quiet, Calm, still, after,
}
use archer_in_zoo.Auction.Leads.{lead, SameLeads, SameLeads-refl, SameLeads-trans}

pub lead-with_status : (st : AuctionStatus) (a : Option Auction) → lead (with_status st a) ≡ lead a
lead-with_status st none = refl
lead-with_status st (some a) = refl

lead_same :
    (a a' : Auction)
    → a'.latest_participate ≡ a.latest_participate
    → a'.minimum_step ≡ a.minimum_step
    → lead (some a') ≡ lead (some a)
lead_same a a' latest step = ground (arith, latest, step)

pub lead-none : (a : Auction) → a.latest_participate ≡ none → lead (some a) ≡ none
lead-none a e = ground (arith, e)

-- One auction is replaced by another with the same latest bidder.
put-SameLeads :
    (s s' : Store) (j : ℕ) (a' : Auction)
    → s'.auction_bids ≡ s.auction_bids
    → s'.auctions ≡ update s.auctions j (some a')
    → lead (some a') ≡ lead (s.auctions j)
    → SameLeads s s'
put-SameLeads s s' j a' same_bids auctions same_lead = record {
  bids = same_bids;
  leads = λ i. elim (Bool-cases (i == j)) [
    | inl same ↦ let e : i ≡ j = ground arith in rw (auctions, same, e) same_lead
    | inr apart ↦ rw (auctions, apart) refl
  ];
}

Write-SameLeads :
    {s s' : Store} (w : Write s s') → is_quiet w ≡ true → WellFormed s → SameLeads s s'
unfolding insert_auction change_auction_status add_all_to_set remove_all_from_set
Write-SameLeads (funds l b) q h = cc
Write-SameLeads (bids last j account price a found m) q h = cc
Write-SameLeads {s} (creates a room new) q h =
    let empty = missing_auction s s.next_auction_id h (omega arith) in
    put-SameLeads s _ s.next_auction_id a refl refl (rw empty (lead-none a new.latest_participate))
Write-SameLeads {s} (plans j a a' found p p' latest terms) q h =
    put-SameLeads s _ j a' refl refl (rw found (lead_same a a' latest terms.minimum_step))
Write-SameLeads {s} (moves j a old new found m) q h =
    put-SameLeads s _ j (record a { status = new }) refl (rw found refl) (rw found refl)
Write-SameLeads (queues pending_vec is) q h = record { bids = refl; leads = λ i. refl }
Write-SameLeads (queues active_vec is) q h = record { bids = refl; leads = λ i. refl }
Write-SameLeads (unqueues pending_vec is) q h = record { bids = refl; leads = λ i. refl }
Write-SameLeads (unqueues active_vec is) q h = record { bids = refl; leads = λ i. refl }

pub Calm-SameLeads : {s s' : Store} → Calm s s' → WellFormed s → SameLeads s s' × WellFormed s'
Calm-SameLeads still h = (SameLeads-refl _, h)
Calm-SameLeads (after {t} {u} c w q) h =
    let (same, g) = Calm-SameLeads c h in
    (SameLeads-trans same (Write-SameLeads w q g), Write-WellFormed w g)
