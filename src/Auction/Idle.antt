-- ===== src/Auction/Idle.antt =====
-- What the working lists come to over histories of calls, and what the worker finds in them.
use archer_in_zoo.Prelude.{ℕ, ◌≡◌, refl, ◌∙◌, ap, none, List, []}
use archer_in_zoo.System.{System}
use archer_in_zoo.Traits.{ItemTransfer}
use archer_in_zoo.Auction.Types.{Store, pending_vec, active_vec}
use archer_in_zoo.Auction.Currency.{Currency}
use archer_in_zoo.Auction.Store.{
  add_all_to_set, remove_all_from_set, insert_auction, change_auction_status,
  do_participate_auction, add_loop, remove_loop,
}
use archer_in_zoo.Auction.Passive.{Keys, Aura}
use archer_in_zoo.Auction.Offchain.{
  starting_auction_ids, stoping_auction_ids, due_ids, start_due, stop_due,
}
use archer_in_zoo.Auction.Dispatch.{Call, run, genesis}
use archer_in_zoo.Auction.Steps.{
  Write, funds, creates, plans, moves, bids, queues, unqueues, Reach, here, next,
}
use archer_in_zoo.Auction.Steps.Unsigned.{run-Reach}
use archer_in_zoo.Auction.Queues.{add_loop-nil, remove_loop-nil}

-- Both working lists are empty, and no item is recorded as being in an auction.
pub record IsIdle (s : Store) : Type 0 where
  pub pending : s.pending_auctions ≡ []
  pub active : s.active_auctions ≡ []
  pub items : (item : ℕ) → s.auction_items item ≡ none

abbrev as_idle :
    {s : Store}
    → (s' : Store) → IsIdle s
    → s'.pending_auctions ≡ s.pending_auctions
    → s'.active_auctions ≡ s.active_auctions
    → s'.auction_items ≡ s.auction_items
    → IsIdle s'
as_idle s' h p a i = record {
  pending = p ∙ h.pending;
  active = a ∙ h.active;
  items = λ j. ap (λ f. f j) i ∙ h.items j;
}

pub Write-IsIdle : {s s' : Store} → Write s s' → IsIdle s → IsIdle s'
unfolding insert_auction change_auction_status do_participate_auction add_all_to_set
    remove_all_from_set
Write-IsIdle (funds l b) h = as_idle _ h refl refl refl
Write-IsIdle (creates a room new) h = as_idle _ h refl refl refl
Write-IsIdle (plans j a a' found p p' latest terms) h = as_idle _ h refl refl refl
Write-IsIdle (moves j a old new found m) h = as_idle _ h refl refl refl
Write-IsIdle (bids last j account price a found m) h = as_idle _ h refl refl refl
Write-IsIdle (queues pending_vec is) h = record {
  pending = ap (add_loop is) h.pending ∙ add_loop-nil is;
  active = h.active;
  items = h.items;
}
Write-IsIdle (queues active_vec is) h = record {
  pending = h.pending;
  active = ap (add_loop is) h.active ∙ add_loop-nil is;
  items = h.items;
}
Write-IsIdle (unqueues pending_vec is) h = record {
  pending = ap (remove_loop is) h.pending ∙ remove_loop-nil is;
  active = h.active;
  items = h.items;
}
Write-IsIdle (unqueues active_vec is) h = record {
  pending = h.pending;
  active = ap (remove_loop is) h.active ∙ remove_loop-nil is;
  items = h.items;
}

Reach-IsIdle : {s s' : Store} → Reach s s' → IsIdle s → IsIdle s'
Reach-IsIdle here h = h
Reach-IsIdle (next r w) h = Write-IsIdle w (Reach-IsIdle r h)

module _ {L I Signature Origin : Type 0} (c : Currency L) (t : ItemTransfer I) (k : Keys Signature)
    (sys : System Origin) where
  -- After every history of calls from the empty storage both working lists are empty and
  -- `AuctionItems` holds nothing, so at no time does the worker find an auction to start or to stop,
  -- whatever start and stop times the owners have set.
  pub worker_idle :
      (calls : List (Aura × Origin × Call Signature × (L × I → L × I))) (l : L) (i : I) (now : ℕ)
      → let s = (run c t k sys calls (genesis l i)).store in
        (starting_auction_ids now s ≡ [])
        × (stoping_auction_ids now s ≡ [])
        × ((item : ℕ) → s.auction_items item ≡ none)
  unfolding starting_auction_ids stoping_auction_ids due_ids
  worker_idle calls l i now =
      let s = (run c t k sys calls (genesis l i)).store in
      let idle : IsIdle s =
        Reach-IsIdle (run-Reach c t k sys calls (genesis l i))
          (record { pending = refl; active = refl; items = λ j. refl }) in
      (
        ap (due_ids (start_due now) s.auctions) idle.pending,
        ap (due_ids (stop_due now s) s.auctions) idle.active,
        idle.items,
      )
