-- ===== src/LinkedItem/Represents/Chain.antt =====
-- Where the links of a chain's entry lead, and the chain without one of its values.
use archer_in_zoo.Prelude.{
  ℕ, ◌≡◌, refl, true, false, Option, none, some, List, [], ◌∷◌, arith, ◌==◌, ◌=?◌, if◌then◌else◌,
  inl, inr, Bool-cases, head?, last_or, contains, erase, Distinct,
}
use archer_in_zoo.LinkedItem.{LinkedItem, item}
use archer_in_zoo.LinkedItem.Represents.{item_of}

-- The value from which a chain is entered is none of its own.
abbrev pub Outside : Option ℕ → List ℕ → Type 0
Outside none xs = Unit
Outside (some a) xs = contains a xs ≡ false

pub item_of-none :
    (p : Option ℕ) (xs : List ℕ) (y : ℕ) → contains y xs ≡ false → item_of p xs y ≡ none
item_of-none p [] y h = refl
item_of-none p (x ∷ xs) y h = ground (arith, item_of-none (some x) xs y)

pub item_of-some :
    (p : Option ℕ) (xs : List ℕ) (y : ℕ)
    → contains y xs ≡ true
    → (i : LinkedItem) × (item_of p xs y ≡ some i)
item_of-some p [] y h = cc
item_of-some p (x ∷ xs) y h = elim (Bool-cases (y == x)) [
  | inl same ↦ (item p (head? xs), rw same)
  | inr other ↦ rw other (item_of-some (some x) xs y (ground arith))
]

module _ (v : ℕ) (i : LinkedItem) where
  pub item_of-next :
      (p : Option ℕ) (xs : List ℕ) (y : ℕ)
      → item_of p xs v ≡ some i
      → contains y xs ≡ false
      → (i.next =? some y) ≡ false
  item_of-next p [] y e h = cc
  item_of-next p (x ∷ []) y e h = ground arith
  item_of-next p (x ∷ z ∷ zs) y e h = ground (arith, item_of-next (some x) (z ∷ zs) y)

  pub item_of-prev :
      (p : Option ℕ) (xs : List ℕ) (y : ℕ)
      → item_of p xs v ≡ some i
      → contains y xs ≡ false
      → (p =? some y) ≡ false
      → (i.prev =? some y) ≡ false
  item_of-prev p [] y e h n = cc
  item_of-prev p (x ∷ xs) y e h n = ground (arith, item_of-prev (some x) xs y)

  pub item_of-prev_some :
      (x : ℕ) (xs : List ℕ) → item_of (some x) xs v ≡ some i → (i.prev =? none) ≡ false
  item_of-prev_some x [] e = cc
  item_of-prev_some x (z ∷ zs) e = ground (arith, item_of-prev_some z zs)

  -- The links of an entry lead neither back to it nor both to one place.
  pub item_of-next_ne :
      (p : Option ℕ) (xs : List ℕ)
      → Distinct xs
      → item_of p xs v ≡ some i
      → (i.next =? some v) ≡ false
  item_of-next_ne p [] d e = cc
  item_of-next_ne p (x ∷ []) d e = ground arith
  item_of-next_ne p (x ∷ z ∷ zs) d e = ground (arith, item_of-next_ne (some x) (z ∷ zs) d.1)

  pub item_of-prev_ne :
      (p : Option ℕ) (xs : List ℕ)
      → Distinct xs
      → Outside p xs
      → item_of p xs v ≡ some i
      → (i.prev =? some v) ≡ false
  item_of-prev_ne p [] d o e = cc
  item_of-prev_ne p (x ∷ xs) d o e = ground (arith, item_of-prev_ne (some x) xs d.1 d.0)

  pub item_of-links_ne :
      (p : Option ℕ) (xs : List ℕ) (y : ℕ)
      → Distinct xs
      → Outside p xs
      → item_of p xs v ≡ some i
      → (i.prev =? some y) ≡ true
      → (i.next =? some y) ≡ false
  item_of-links_ne p [] y d o e h = cc
  item_of-links_ne p (x ∷ []) y d o e h = ground arith
  item_of-links_ne p (x ∷ z ∷ zs) y d o e h =
      ground (arith, item_of-links_ne (some x) (z ∷ zs) y d.1 d.0)

  pub head?-erase :
      (xs : List ℕ)
      → item_of none xs v ≡ some i
      → head? (erase v xs) ≡ (if i.prev =? none then i.next else head? xs)
  head?-erase [] e = cc
  head?-erase (x ∷ xs) e = ground (arith, item_of-prev_some x xs)

  pub last_or-erase :
      (p : Option ℕ) (xs : List ℕ)
      → item_of p xs v ≡ some i
      → last_or p (erase v xs) ≡ (if i.next =? none then i.prev else last_or p xs)
  last_or-erase p [] e = cc
  last_or-erase p (x ∷ []) e = ground arith
  last_or-erase p (x ∷ z ∷ zs) e = ground (arith, last_or-erase (some x) (z ∷ zs))

abbrev pub set_next : Option ℕ → Option LinkedItem → Option LinkedItem
set_next n none = none
set_next n (some i) = some (item i.prev n)

abbrev pub set_prev : Option ℕ → Option LinkedItem → Option LinkedItem
set_prev p none = none
set_prev p (some i) = some (item p i.next)

item_of-erase_first :
    (p : Option ℕ) (x z : ℕ) (zs : List ℕ) (v y : ℕ) (i : LinkedItem)
    → Distinct (x ∷ z ∷ zs)
    → Outside p (x ∷ z ∷ zs)
    → item_of p (x ∷ z ∷ zs) v ≡ some i
    → (v == x) ≡ true
    → item_of p (erase v (x ∷ z ∷ zs)) y ≡ (
        if y == v
        then none
        else if i.next =? some y
        then set_prev i.prev (item_of p (x ∷ z ∷ zs) y)
        else if i.prev =? some y
        then set_next i.next (item_of p (x ∷ z ∷ zs) y)
        else item_of p (x ∷ z ∷ zs) y)
item_of-erase_first none x z zs v y i d o e first =
    ground (arith, item_of-none (some z) zs y, item_of-none (some x) (z ∷ zs) y)
item_of-erase_first (some a) x z zs v y i d o e first =
    ground (arith, item_of-none (some z) zs y, item_of-none (some x) (z ∷ zs) y)

-- The chain without `v`, entry by entry: the neighbours of `v` are linked to one another.
pub item_of-erase :
    (p : Option ℕ) (xs : List ℕ) (v y : ℕ) (i : LinkedItem)
    → Distinct xs
    → Outside p xs
    → item_of p xs v ≡ some i
    → item_of p (erase v xs) y ≡ (
        if y == v
        then none
        else if i.next =? some y
        then set_prev i.prev (item_of p xs y)
        else if i.prev =? some y
        then set_next i.next (item_of p xs y)
        else item_of p xs y)
item_of-erase p [] v y i d o e = cc
item_of-erase none (x ∷ []) v y i d o e = ground arith
item_of-erase (some a) (x ∷ []) v y i d o e = ground arith
item_of-erase p (x ∷ z ∷ zs) v y i d o e = elim (Bool-cases (v == x)) [
  | inl first ↦ item_of-erase_first p x z zs v y i d o e first
  | inr later ↦ ground (
    arith,
    item_of-erase (some x) (z ∷ zs) v y i d.1 d.0,
    item_of-next v i (some x) (z ∷ zs) x,
    item_of-prev v i (some z) zs x,
  )
]
