-- ===== src/Auction/Participants.antt =====
-- `AuctionParticipants` over any history of calls.
use archer_in_zoo.Prelude.{
  true, ◌||◌, ◌∙◌, ◌==◌, contains-snoc, arith, ℕ, ◌≡◌, refl, Option, none, some, List, [], ◌∷◌,
  Bool-cases, inl, inr, get_or, contains, Distinct, Distinct-snoc,
}
use archer_in_zoo.System.{System}
use archer_in_zoo.Traits.{ItemTransfer}
use archer_in_zoo.Auction.Types.{Store, pending_vec, active_vec}
use archer_in_zoo.Auction.Store.{
  add_all_to_set, remove_all_from_set, insert_auction, change_auction_status,
  do_participate_auction, list_contains, with_participant,
}
use archer_in_zoo.Auction.Currency.{Currency}
use archer_in_zoo.Auction.Passive.{Keys, Aura}
use archer_in_zoo.Auction.Dispatch.{Call, run, genesis}
use archer_in_zoo.Auction.Steps.{
  Write, funds, creates, plans, moves, bids, queues, unqueues, Reach, here, next,
}
use archer_in_zoo.Auction.Steps.Unsigned.{run-Reach}

list_contains-eq : (xs : List ℕ) (a : ℕ) → list_contains xs a ≡ contains a xs
unfolding list_contains
list_contains-eq [] a = refl
list_contains-eq (x ∷ xs) a = ground (arith, list_contains-eq xs a)

with_participant-Distinct :
    (a : ℕ) (ps : Option (List ℕ)) → Distinct (get_or ps []) → Distinct (with_participant a ps)
with_participant-Distinct a none d = (refl, tt)
with_participant-Distinct a (some ps) d = elim (Bool-cases (contains a ps)) [
  | inl old ↦ rw (list_contains-eq ps a, old) d
  | inr new ↦ rw (list_contains-eq ps a, new) (Distinct-snoc a ps d new)
]

already_there :
    (q a : ℕ) (ps : List ℕ) → contains a ps ≡ true → contains q ps ≡ ((q == a) || contains q ps)
already_there q a ps h = elim (Bool-cases (q == a)) [
  | inl same ↦ let e : q ≡ a = ground arith in rw (e, h) (ground arith)
  | inr apart ↦ rw apart refl
]

pub contains-with_participant :
    (q a : ℕ) (ps : Option (List ℕ))
    → contains q (with_participant a ps) ≡ ((q == a) || contains q (get_or ps []))
contains-with_participant q a none = refl
contains-with_participant q a (some ps) = elim (Bool-cases (contains a ps)) [
  | inl old ↦ rw (list_contains-eq ps a, old) (already_there q a ps old)
  | inr new ↦ rw (list_contains-eq ps a, new) (contains-snoc q a ps ∙ ground arith)
]

-- Every auction's participants are listed once each.
abbrev pub AllDistinct : Store → Type 0
AllDistinct s = (k : ℕ) → Distinct (get_or (s.auction_participants k) [])

Write-AllDistinct : {s s' : Store} → Write s s' → AllDistinct s → AllDistinct s'
unfolding insert_auction change_auction_status do_participate_auction add_all_to_set
    remove_all_from_set
Write-AllDistinct (funds l b) d k = d k
Write-AllDistinct (creates a room new) d k = d k
Write-AllDistinct (plans j a a' found p p' latest terms) d k = d k
Write-AllDistinct (moves j a old new found m) d k = d k
Write-AllDistinct {s} (bids last j account price a found m) d k = elim (Bool-cases (k == j)) [
  | inl same ↦ rw same (with_participant-Distinct account (s.auction_participants j) (d j))
  | inr other ↦ rw other (d k)
]
Write-AllDistinct (queues pending_vec is) d k = d k
Write-AllDistinct (queues active_vec is) d k = d k
Write-AllDistinct (unqueues pending_vec is) d k = d k
Write-AllDistinct (unqueues active_vec is) d k = d k

pub Reach-AllDistinct : {s s' : Store} → Reach s s' → AllDistinct s → AllDistinct s'
Reach-AllDistinct here d = d
Reach-AllDistinct (next r w) d = Write-AllDistinct w (Reach-AllDistinct r d)

module _ {L I Signature Origin : Type 0} (c : Currency L) (t : ItemTransfer I) (k : Keys Signature)
    (sys : System Origin) where
  -- After every history of calls from the empty storage no account is listed twice as a participant
  -- of an auction.
  pub run-Distinct :
      (calls : List (Aura × Origin × Call Signature × (L × I → L × I))) (l : L) (i : I) (j : ℕ)
      → Distinct (get_or ((run c t k sys calls (genesis l i)).store.auction_participants j) [])
  run-Distinct calls l i j = Reach-AllDistinct (run-Reach c t k sys calls (genesis l i)) (λ q. tt) j
