-- ===== src/LinkedItem/Represents/Append.antt =====
-- `LinkedList::append` and the list that its storage stands for.
use archer_in_zoo.Prelude.{
  inl, inr, Bool-cases, ℕ, ◌≡◌, refl, true, false, Option, none, some, List, [], ◌∷◌, ◌++◌, arith,
  ◌==◌, ◌=?◌, if◌then◌else◌, head?, last_or, contains, last_or-ne, Distinct, Distinct-snoc,
}
use archer_in_zoo.LinkedItem.{LinkedItem, item, Storage, read, read_head, write, write_head, append}
use archer_in_zoo.LinkedItem.Represents.{item_of, Represents}

abbrev set_next : Option ℕ → Option LinkedItem → Option LinkedItem
set_next n none = none
set_next n (some i) = some (item i.prev n)

-- The chain with `v` at its end, entry by entry.
item_of-snoc :
    (p : Option ℕ) (xs : List ℕ) (v y : ℕ)
    → Distinct xs
    → contains v xs ≡ false
    → item_of p (xs ++ v ∷ []) y ≡ (
        if y == v
        then some (item (last_or p xs) none)
        else if last_or p xs =? some y
        then set_next (some v) (item_of p xs y)
        else item_of p xs y)
item_of-snoc p [] v y d h = ground arith
item_of-snoc p (x ∷ []) v y d h = ground arith
item_of-snoc p (x ∷ z ∷ zs) v y d h =
    ground (arith, item_of-snoc (some x) (z ∷ zs) v y d.1, last_or-ne x z zs)

last_or-snoc : (p : Option ℕ) (xs : List ℕ) (v : ℕ) → last_or p (xs ++ v ∷ []) ≡ some v
last_or-snoc p [] v = refl
last_or-snoc p (x ∷ xs) v = last_or-snoc (some x) xs v

item_of-last :
    (p : Option ℕ) (xs : List ℕ) (y : ℕ)
    → (last_or p xs =? some y) ≡ true
    → (p =? some y) ≡ false
    → (i : LinkedItem) × (item_of p xs y ≡ some i)
item_of-last p [] y e n = cc
item_of-last p (x ∷ xs) y e n = elim (Bool-cases (y == x)) [
  | inl same ↦ (item p (head? xs), rw same)
  | inr other ↦ rw other (item_of-last (some x) xs y e (ground arith))
]

-- What `append` writes, in terms of the head entry before.
append-entry :
    (s : Storage) (key v y : ℕ)
    → append key v s key (some y) ≡ (
        if y == v
        then some (item (read key none s).prev none)
        else if (read key none s).prev =? some y
        then some (item (read key (some y) s).prev (some v))
        else s key (some y))
unfolding append read_head read write_head write
append-entry s key v y = ground arith

append-head :
    (s : Storage) (key v : ℕ)
    → read key none (append key v s) ≡ (
        if (read key none s).prev =? none
        then item (some v) (some v)
        else item (some v) (read key none s).next)
unfolding append read_head read write_head write
append-head s key v = ground arith

last_or-ne_none : (x : ℕ) (xs : List ℕ) → (last_or (some x) xs =? none) ≡ false
last_or-ne_none x [] = refl
last_or-ne_none x (y ∷ xs) = last_or-ne_none y xs

head_snoc :
    (s : Storage) (key v : ℕ) (xs : List ℕ)
    → Represents s key xs
    → read key none (append key v s) ≡ item (last_or none (xs ++ v ∷ [])) (head? (xs ++ v ∷ []))
head_snoc s key v [] r = rw (append-head, r.head)
head_snoc s key v (x ∷ xs) r =
    rw (append-head, r.head, last_or-ne_none x xs, last_or-snoc (some x) xs v)

entries_snoc :
    (s : Storage) (key v : ℕ) (xs : List ℕ)
    → Represents s key xs
    → contains v xs ≡ false
    → (y : ℕ) → append key v s key (some y) ≡ item_of none (xs ++ v ∷ []) y
unfolding read
entries_snoc s key v xs r h y = ground (
  arith,
  append-entry s key v y,
  r.head,
  r.entries y,
  item_of-snoc none xs v y r.distinct h,
  item_of-last none xs y,
)

-- Where the entries of a key represent a list, appending a value that is not in it puts the value at
-- the end.
pub append-Represents :
    (s : Storage) (key v : ℕ) (xs : List ℕ)
    → Represents s key xs
    → contains v xs ≡ false
    → Represents (append key v s) key (xs ++ v ∷ [])
append-Represents s key v xs r h = record {
  distinct = Distinct-snoc v xs r.distinct h;
  head = head_snoc s key v xs r;
  entries = λ y. entries_snoc s key v xs r h y;
}

-- Appending under one key leaves the lists of all other keys alone.
pub append_other :
    (s : Storage) (key v k : ℕ) (q : Option ℕ) → (k == key) ≡ false → append key v s k q ≡ s k q
unfolding append read_head read write_head write
append_other s key v k q n = ground arith
