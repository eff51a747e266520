-- ===== src/Build/Wasm.antt =====
-- substrate-kitties/runtime/build.rs: the program that is to compile the runtime's code. Texts are
-- their bytes.
pub mod Replaced
pub mod Tests
use archer_in_zoo.Prelude.{
  ℕ, zero, suc, ◌-◌, Bool, true, false, ◌&&◌, ◌||◌, Option, none, some, List, [], ◌∷◌, ◌++◌, ◌==◌,
  length, if◌then◌else◌,
}

abbrev pub rls : List ℕ
rls = b'r' ∷ b'l' ∷ b's' ∷ []

abbrev pub cargo : List ℕ
cargo = b'c' ∷ b'a' ∷ b'r' ∷ b'g' ∷ b'o' ∷ []

-- `==` on texts.
unfoldable pub same_text : (a b : List ℕ) → Bool
same_text [] [] = true
same_text (x ∷ xs) (y ∷ ys) = (x == y) && same_text xs ys
same_text _ _ = false

-- `str::starts_with`
unfoldable pub starts_with : (pattern text : List ℕ) → Bool
starts_with [] text = true
starts_with (p ∷ ps) [] = false
starts_with (p ∷ ps) (x ∷ xs) = (p == x) && starts_with ps xs

-- `str::ends_with`
unfoldable pub ends_with : (pattern text : List ℕ) → Bool
unfolding same_text
ends_with pattern [] = same_text pattern []
ends_with pattern (x ∷ xs) = same_text pattern (x ∷ xs) || ends_with pattern xs

-- `str::replace` for a pattern that is not empty: every occurrence from the left. `skip` bytes of an
-- occurrence are still to be left out.
unfoldable pub replace : (pattern to : List ℕ) → (skip : ℕ) → (text : List ℕ) → List ℕ
unfolding starts_with
replace pattern to skip [] = []
replace pattern to (suc skip) (x ∷ xs) = replace pattern to skip xs
replace pattern to zero (x ∷ xs) = elim (starts_with pattern (x ∷ xs)) [
  | true ↦ to ++ replace pattern to (length pattern - 1) xs
  | false ↦ x ∷ replace pattern to zero xs
]

-- What `main` sets the variable CARGO to, if it does.
unfoldable pub set_cargo : (variable : List ℕ) → Option (List ℕ)
unfolding ends_with replace
set_cargo variable = if ends_with rls variable then some (replace rls cargo 0 variable) else none
