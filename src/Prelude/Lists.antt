-- ===== src/Prelude/Lists.antt =====
-- Lists of numbers: membership as a test, distinctness, ends, removal.
use Prim.Native.Nat.{ℕ, zero, suc, ◌<◌, ◌≤◌}
use mathlib.Core.Path.{◌≡◌, refl, ap}
use mathlib.Core.Bool.{Bool, false, ◌||◌}
use mathlib.Core.Option.{Option, none, some}
use mathlib.Core.List.{List, [], ◌∷◌, ◌++◌}
use native.Mathlib.Omega.{arith}
use archer_in_zoo.Prelude.Tests.{◌==◌, ◌=?◌, if◌then◌else◌}

abbrev pub contains : ℕ → List ℕ → Bool
contains a [] = false
contains a (x ∷ xs) = (a == x) || contains a xs

-- No element stands twice.
abbrev pub Distinct : List ℕ → Type 0
Distinct [] = Unit
Distinct (x ∷ xs) = (contains x xs ≡ false) × Distinct xs

abbrev pub head? : List ℕ → Option ℕ
head? [] = none
head? (x ∷ xs) = some x

-- The last element, or `p` of an empty list.
abbrev pub last_or : Option ℕ → List ℕ → Option ℕ
last_or p [] = p
last_or p (x ∷ xs) = last_or (some x) xs

-- Without the first occurrence of `v`.
abbrev pub erase : ℕ → List ℕ → List ℕ
erase v [] = []
erase v (x ∷ xs) = if v == x then xs else x ∷ erase v xs

pub contains-snoc :
    (a v : ℕ) (xs : List ℕ) → contains a (xs ++ v ∷ []) ≡ (contains a xs || (a == v))
contains-snoc a v [] = ground arith
contains-snoc a v (x ∷ xs) = ground (arith, contains-snoc a v xs)

pub Distinct-snoc :
    (v : ℕ) (xs : List ℕ) → Distinct xs → contains v xs ≡ false → Distinct (xs ++ v ∷ [])
Distinct-snoc v [] d h = (refl, tt)
Distinct-snoc v (x ∷ xs) d h = ground (arith, contains-snoc x v xs, Distinct-snoc v xs d.1)

pub contains-erase_ne :
    (a v : ℕ) (xs : List ℕ) → (a == v) ≡ false → contains a (erase v xs) ≡ contains a xs
contains-erase_ne a v [] h = refl
contains-erase_ne a v (x ∷ xs) h = ground (arith, contains-erase_ne a v xs h)

pub contains-erase_self : (v : ℕ) (xs : List ℕ) → Distinct xs → contains v (erase v xs) ≡ false
contains-erase_self v [] d = refl
contains-erase_self v (x ∷ xs) d = ground (arith, contains-erase_self v xs d.1)

pub Distinct-erase : (v : ℕ) (xs : List ℕ) → Distinct xs → Distinct (erase v xs)
Distinct-erase v [] d = tt
Distinct-erase v (x ∷ xs) d = ground (arith, contains-erase_ne x v xs, Distinct-erase v xs d.1)

-- The last element of a longer list is one of it.
pub last_or-ne :
    (y p : ℕ) (xs : List ℕ)
    → contains y xs ≡ false
    → (y == p) ≡ false
    → (last_or (some p) xs =? some y) ≡ false
last_or-ne y p [] h e = ground arith
last_or-ne y p (x ∷ xs) h e = ground (arith, last_or-ne y x xs)

module _ {ℓ} {A : Type ℓ} where
  abbrev pub length : List A → ℕ
  length [] = 0
  length (x ∷ xs) = suc (length xs)

  abbrev pub get_elem? : List A → ℕ → Option A
  get_elem? [] i = none
  get_elem? (x ∷ xs) zero = some x
  get_elem? (x ∷ xs) (suc i) = get_elem? xs i

  abbrev pub set : List A → ℕ → A → List A
  set [] i v = []
  set (x ∷ xs) zero v = v ∷ xs
  set (x ∷ xs) (suc i) v = x ∷ set xs i v

  abbrev pub replicate : ℕ → A → List A
  replicate zero x = []
  replicate (suc n) x = x ∷ replicate n x

  pub length-set : (xs : List A) (i : ℕ) (v : A) → length (set xs i v) ≡ length xs
  length-set [] i v = refl
  length-set (x ∷ xs) zero v = refl
  length-set (x ∷ xs) (suc i) v = ap suc (length-set xs i v)

  pub get_elem?-set :
      (xs : List A) (i j : ℕ) (v : A)
      → i < length xs
      → get_elem? (set xs i v) j ≡ (if j == i then some v else get_elem? xs j)
  get_elem?-set [] i j v h = elim h [ ]
  get_elem?-set (x ∷ xs) zero zero v h = refl
  get_elem?-set (x ∷ xs) zero (suc j) v h = ground arith
  get_elem?-set (x ∷ xs) (suc i) zero v h = ground arith
  get_elem?-set (x ∷ xs) (suc i) (suc j) v h = ground (arith, get_elem?-set xs i j v)

  pub get_elem?-ge : (xs : List A) (i : ℕ) → length xs ≤ i → get_elem? xs i ≡ none
  get_elem?-ge [] i h = refl
  get_elem?-ge (x ∷ xs) zero h = elim h [ ]
  get_elem?-ge (x ∷ xs) (suc i) h = get_elem?-ge xs i (omega arith)
