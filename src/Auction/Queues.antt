-- ===== src/Auction/Queues.antt =====
-- The working lists `PendingAuctions` and `ActiveAuctions`.
use archer_in_zoo.Prelude.{
  ℕ, ◌≡◌, refl, ◌∙◌, not, ◌&&◌, List, [], ◌∷◌, ◌++◌, ◌==◌, arith, contains, contains-snoc,
  Bool-cases, inl, inr,
}
use archer_in_zoo.Auction.Types.{Store, StoreVecs, pending_vec, active_vec}
use archer_in_zoo.Auction.Store.{
  vec, all_differ, add_loop, add_all_to_set, drop_id, remove_loop, remove_all_from_set,
}

all_differ-eq : (i : ℕ) (js : List ℕ) → all_differ i js ≡ not (contains i js)
unfolding all_differ
all_differ-eq i [] = refl
all_differ-eq i (j ∷ js) = ground (arith, all_differ-eq i js)

contains-add_loop :
    (i : ℕ) (ids stored : List ℕ) → contains i (add_loop ids stored) ≡ contains i stored
unfolding add_loop
contains-add_loop i [] stored = refl
contains-add_loop i (j ∷ js) stored = elim (Bool-cases (contains j stored)) [
  | inl old ↦
      rw (all_differ-eq j stored, old)
        (contains-add_loop i js (stored ++ j ∷ []) ∙ ground (arith, contains-snoc i j stored))
  | inr new ↦ rw (all_differ-eq j stored, new) (contains-add_loop i js stored)
]

-- `add_all_to_set` never puts a new id into a working list: an id is in the list after the call
-- exactly if it was there before, whatever the ids that are to be added.
pub contains-add_all_to_set :
    (v : StoreVecs) (i : ℕ) (ids : List ℕ) (s : Store)
    → contains i (vec v (add_all_to_set v ids s)) ≡ contains i (vec v s)
unfolding add_all_to_set
contains-add_all_to_set pending_vec i ids s = contains-add_loop i ids s.pending_auctions
contains-add_all_to_set active_vec i ids s = contains-add_loop i ids s.active_auctions

pub add_loop-nil : (ids : List ℕ) → add_loop ids [] ≡ []
unfolding add_loop all_differ
add_loop-nil [] = refl
add_loop-nil (i ∷ is) = add_loop-nil is

contains-drop_id :
    (i j : ℕ) (stored : List ℕ)
    → contains i (drop_id j stored) ≡ (contains i stored && not (i == j))
unfolding drop_id
contains-drop_id i j [] = refl
contains-drop_id i j (x ∷ xs) = ground (arith, contains-drop_id i j xs)

contains-remove_loop :
    (i : ℕ) (ids stored : List ℕ)
    → contains i (remove_loop ids stored) ≡ (contains i stored && not (contains i ids))
unfolding remove_loop
contains-remove_loop i [] stored = ground arith
contains-remove_loop i (j ∷ js) stored =
    ground (arith, contains-remove_loop i js (drop_id j stored), contains-drop_id i j stored)

-- `remove_all_from_set` takes exactly the given ids out of a working list, every occurrence.
pub contains-remove_all_from_set :
    (v : StoreVecs) (i : ℕ) (ids : List ℕ) (s : Store)
    → contains i (vec v (remove_all_from_set v ids s))
      ≡ (contains i (vec v s) && not (contains i ids))
unfolding remove_all_from_set
contains-remove_all_from_set pending_vec i ids s = contains-remove_loop i ids s.pending_auctions
contains-remove_all_from_set active_vec i ids s = contains-remove_loop i ids s.active_auctions

pub remove_loop-nil : (ids : List ℕ) → remove_loop ids [] ≡ []
unfolding remove_loop drop_id
remove_loop-nil [] = refl
remove_loop-nil (i ∷ is) = remove_loop-nil is
