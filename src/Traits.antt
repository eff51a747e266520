-- ===== src/Traits.antt =====
-- substrate-kitties/runtime/src/traits.rs: how the auctions use a module that has items. The
-- implementation works on a state `I` of its own.
use archer_in_zoo.Prelude.{ℕ, ◌≡◌, Bool, true, false, ◌==◌, if◌then◌else◌}
use archer_in_zoo.Outcome.{Error, Action, ok, err}

pub record ItemTransfer (I : Type 0) : Type 0 where
  pub is_item_owner : (who item_id : ℕ) → I → Bool
  pub transfer_item : (source dest item_id : ℕ) → Action I (Unit {0})

-- What a client may rely on, in the states that the implementation calls good: a transfer by the
-- owner succeeds and makes `dest` the one owner, any other is refused and changes nothing, no other
-- item changes hands, and an item has one owner at most.
pub record Lawful {I : Type 0} (t : ItemTransfer I) (Good : I → Type 0) : Type 0 where
  pub gives :
      (source dest item : ℕ) (i : I)
      → Good i
      → t.is_item_owner source item i ≡ true
      → (t.transfer_item source dest item i).0 ≡ ok tt
  pub gives_good :
      (source dest item : ℕ) (i : I) → Good i → Good (t.transfer_item source dest item i).1
  pub owner_after :
      (source dest item who item' : ℕ) (i : I)
      → Good i
      → t.is_item_owner source item i ≡ true
      → t.is_item_owner who item' (t.transfer_item source dest item i).1
        ≡ (if item' == item then who == dest else t.is_item_owner who item' i)
  pub refuses :
      (source dest item : ℕ) (i : I)
      → t.is_item_owner source item i ≡ false
      → (e : Error) × (t.transfer_item source dest item i ≡ (err e, i))
  pub unique :
      (p q item : ℕ) (i : I)
      → Good i
      → t.is_item_owner p item i ≡ true
      → t.is_item_owner q item i ≡ true
      → p ≡ q
