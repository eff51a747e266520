-- ===== src/LinkedItem/Represents.antt =====
-- What a linked list of linked_item.rs stands for: the entries of one key, from the head's `next`.
pub mod Append
pub mod Chain
pub mod Remove
pub mod Undo
use archer_in_zoo.Prelude.{
  ℕ, ◌≡◌, Option, none, some, List, [], ◌∷◌, ◌==◌, if◌then◌else◌, head?, last_or, Distinct,
}
use archer_in_zoo.LinkedItem.{LinkedItem, item, Storage, read}

-- The entry of `y` in a chain `xs` that is entered from `p`.
abbrev pub item_of : Option ℕ → List ℕ → ℕ → Option LinkedItem
item_of p [] y = none
item_of p (x ∷ xs) y = if y == x then some (item p (head? xs)) else item_of (some x) xs y

-- The entries of `key` are the circular list of the distinct values `xs`, closed by the head entry,
-- and nothing else is stored under `key`.
pub record Represents (s : Storage) (key : ℕ) (xs : List ℕ) : Type 0 where
  pub distinct : Distinct xs
  pub head : read key none s ≡ item (last_or none xs) (head? xs)
  pub entries : (y : ℕ) → s key (some y) ≡ item_of none xs y
