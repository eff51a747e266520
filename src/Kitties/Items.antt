-- ===== src/Kitties/Items.antt =====
-- `impl ItemTransfer for Module<T>` in kitties.rs: the kitties as items of an auction.
use archer_in_zoo.Prelude.{ℕ, ◌≡◌, refl, sym, ◌∙◌, Bool, true, false, arith, ◌==◌, if◌then◌else◌}
use archer_in_zoo.Outcome.{Action, ok, err, only_owner_can_transfer}
use archer_in_zoo.Traits.{ItemTransfer, Lawful}
use archer_in_zoo.Kitties.{
  State, is_kitty_owner, transfer_kitty, do_transfer, deposit_event, transferred,
}
use archer_in_zoo.Kitties.Registry.{Registry, Refines}
use archer_in_zoo.Kitties.Refinement.{is_kitty_owner-eq}
use archer_in_zoo.Kitties.Calls.{transfer_kitty-Simulates, transfer_spec}

unfoldable pub is_item_owner : (who item_id : ℕ) → State → Bool
is_item_owner who item_id = is_kitty_owner who item_id

unfoldable pub transfer_item : (source dest item_id : ℕ) → Action State (Unit {0})
transfer_item source dest item_id = transfer_kitty source dest item_id

abbrev pub kitty_items : ItemTransfer State
kitty_items = record { is_item_owner = is_item_owner; transfer_item = transfer_item }

-- The storage refines some registry.
abbrev pub IsSound : State → Type 0
IsSound st = (r : Registry) × Refines st r

transfer_kitty-owned :
    (source dest item : ℕ) (st : State)
    → is_kitty_owner source item st ≡ true
    → transfer_kitty source dest item st
      ≡ (ok tt, deposit_event (transferred source dest item) (do_transfer source dest item st))
unfolding transfer_kitty
transfer_kitty-owned source dest item st h = rw h

transfer_kitty-foreign :
    (source dest item : ℕ) (st : State)
    → is_kitty_owner source item st ≡ false
    → transfer_kitty source dest item st ≡ (err only_owner_can_transfer, st)
unfolding transfer_kitty
transfer_kitty-foreign source dest item st h = rw h

transfer_kitty-IsSound :
    (source dest item : ℕ) (st : State)
    → IsSound st
    → IsSound (transfer_kitty source dest item st).1
transfer_kitty-IsSound source dest item st (r, h) = (
  (transfer_spec source dest item r).1,
  (transfer_kitty-Simulates st r h source dest item).refines,
)

owner_after :
    (source dest item who item' : ℕ) (st : State)
    → IsSound st
    → is_kitty_owner source item st ≡ true
    → is_kitty_owner who item' (transfer_kitty source dest item st).1
      ≡ (if item' == item then who == dest else is_kitty_owner who item' st)
unfolding do_transfer deposit_event
owner_after source dest item who item' st (r, h) mine =
    let (r', h') = transfer_kitty-IsSound source dest item st (r, h) in
    let after = (is_kitty_owner-eq _ r' who item' h').1 in
    let before = (is_kitty_owner-eq st r who item' h).1 in
    after ∙ rw (transfer_kitty-owned source dest item st mine) (ground (arith, before))

unique_owner :
    (p q item : ℕ) (st : State)
    → IsSound st
    → is_kitty_owner p item st ≡ true
    → is_kitty_owner q item st ≡ true
    → p ≡ q
unique_owner p q item st (r, h) mine yours =
    let first = sym (is_kitty_owner-eq st r p item h).1 ∙ mine in
    let second = sym (is_kitty_owner-eq st r q item h).1 ∙ yours in ground (arith, first, second)

-- The kitties keep the promises that the auctions rely on, wherever the storage refines a registry.
pub kitty_items-Lawful : Lawful kitty_items IsSound
unfolding is_item_owner transfer_item
kitty_items-Lawful = record {
  gives = λ source dest item st g mine. rw (transfer_kitty-owned source dest item st mine) refl;
  gives_good = transfer_kitty-IsSound;
  owner_after = owner_after;
  unique = unique_owner;
  refuses = λ source dest item st foreign.
      (only_owner_can_transfer, transfer_kitty-foreign source dest item st foreign);
}
