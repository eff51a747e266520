-- ===== src/Kitties/Registry.antt =====
-- The abstract view of kitties.rs: a counter, the kitties, and each account's kitties in order.
use archer_in_zoo.Prelude.{
  ℕ, ◌+◌, ◌≤◌, ◌≡◌, Option, none, some, List, [], ◌∷◌, ◌++◌, ◌=?◌, is_some, update, ltb, contains,
  erase,
}
use archer_in_zoo.LinkedItem.Represents.{Represents}
use archer_in_zoo.Kitties.{Kitty, State, kitty_index_max}

pub record Registry : Type 0 where
  pub count : ℕ
  pub kitties : ℕ → Option Kitty
  pub owned : ℕ → List ℕ

abbrev pub empty : Registry
empty = record { count = 0; kitties = λ k. none; owned = λ a. [] }

-- A new kitty takes the next number and stands last among its owner's.
abbrev pub mint : ℕ → Kitty → Registry → Registry
mint owner k r = record {
  count = r.count + 1;
  kitties = update r.kitties r.count (some k);
  owned = update r.owned owner (r.owned owner ++ r.count ∷ []);
}

-- A transferred kitty leaves its owner's list and stands last in the other, or the same, list.
abbrev pub move : (from to kitty_id : ℕ) → Registry → Registry
move from to kitty_id r = record r { owned = update taken to (taken to ++ kitty_id ∷ []) }
  where
    taken : ℕ → List ℕ
    taken = update r.owned from (erase kitty_id (r.owned from))

-- The storage of kitties.rs stores a registry: the lists by links, the owners a second time.
pub record Refines (st : State) (r : Registry) : Type 0 where
  pub counted : st.kitties_count ≡ r.count
  pub bounded : r.count ≤ kitty_index_max
  pub stored : (k : ℕ) → st.kitties k ≡ r.kitties k
  pub numbered : (k : ℕ) → is_some (r.kitties k) ≡ ltb k r.count
  pub listed : (a : ℕ) → Represents st.owned_kitties a (r.owned a)
  pub owners : (k a : ℕ) → contains k (r.owned a) ≡ (st.kitty_owners k =? some a)
  pub owned_below : (k : ℕ) → is_some (st.kitty_owners k) ≡ ltb k r.count
