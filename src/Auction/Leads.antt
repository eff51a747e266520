-- ===== src/Auction/Leads.antt =====
-- The latest bidder of an auction against the bids on record.
pub mod Quiet
pub mod Stops
pub mod Bids
pub mod Histories
use archer_in_zoo.Prelude.{
  ℕ, ◌+◌, ◌<◌, ◌≡◌, refl, sym, ap, ◌∙◌, false, Option, none, some, ◌==◌, arith,
}
use archer_in_zoo.Words.{balance_mod}
use archer_in_zoo.Auction.Types.{Auction, Store, empty_store}
use archer_in_zoo.Auction.Funds.{bid_of}

-- The latest bidder of an auction and its minimum step, where there is a bidder.
abbrev pub lead : Option Auction → Option (ℕ × ℕ)
lead none = none
lead (some a) = elim a.latest_participate [
  | none ↦ none
  | some (account, moment) ↦ some (account, a.minimum_step)
]

-- Every other bid on record is below that of the latest bidder.
pub record Leads (s : Store) : Type 0 where
  pub nobody : (i q : ℕ) → lead (s.auctions i) ≡ none → s.auction_bids i q ≡ none
  pub highest :
      (i p step q b : ℕ)
      → lead (s.auctions i) ≡ some (p, step)
      → s.auction_bids i q ≡ some b
      → (q == p) ≡ false
      → b < bid_of i p s
  -- The next bid can be told without an overflow.
  pub room :
      (i p step : ℕ) → lead (s.auctions i) ≡ some (p, step) → bid_of i p s + step < balance_mod

pub empty-Leads : Leads empty_store
empty-Leads = record {
  nobody = λ i q e. refl;
  highest = λ i p step q b e f g. cc;
  room = λ i p step e. cc;
}

-- The bids on record and the latest bidders are those of another storage.
pub record SameLeads (s s' : Store) : Type 0 where
  pub bids : s'.auction_bids ≡ s.auction_bids
  pub leads : (i : ℕ) → lead (s'.auctions i) ≡ lead (s.auctions i)

pub SameLeads-refl : (s : Store) → SameLeads s s
SameLeads-refl s = record { bids = refl; leads = λ i. refl }

pub SameLeads-trans : {s t u : Store} → SameLeads s t → SameLeads t u → SameLeads s u
SameLeads-trans p q = record { bids = q.bids ∙ p.bids; leads = λ i. q.leads i ∙ p.leads i }

pub SameLeads-Leads : {s s' : Store} → SameLeads s s' → Leads s → Leads s'
SameLeads-Leads k h = record {
  nobody = λ i q e. ap (λ f. f i q) k.bids ∙ h.nobody i q (sym (k.leads i) ∙ e);
  highest = λ i p step q b e f g.
      rw k.bids (h.highest i p step q b (sym (k.leads i) ∙ e) (sym (ap (λ x. x i q) k.bids) ∙ f) g);
  room = λ i p step e. rw k.bids (h.room i p step (sym (k.leads i) ∙ e));
}
