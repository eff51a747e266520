-- ===== src/Build.antt =====
-- substrate-kitties/build.rs: the search for `.git/HEAD` from the directory of the manifest upwards.
pub mod Search
pub mod Wasm
pub mod Tests
use Prim.Native.String.{String}
use archer_in_zoo.Prelude.{ℕ, zero, suc, Bool, true, false, List, [], ◌∷◌}

-- An absolute path, its last component first; the root has none.
abbrev pub Dir : Type 0
Dir = List String

abbrev pub has_parent : Dir → Bool
has_parent [] = false
has_parent (name ∷ parent) = true

abbrev pub pop : Dir → Dir
pop [] = []
pop (name ∷ parent) = parent

-- What the search prints: the file that it found, or a warning; or the fuel was too little.
pub data Searched : Type 0 where
  rerun_if_changed : (manifest_dir : Dir) → Searched
  could_not_find : Searched
  out_of_fuel : Searched

-- The loop of `main`; `has_git_head` says of a directory whether it has a file `.git/HEAD`.
unfoldable pub search : (has_git_head : Dir → Bool) → (fuel : ℕ) → (manifest_dir : Dir) → Searched
search has_git_head zero dir = out_of_fuel
search has_git_head (suc fuel) dir =
    let rest = search has_git_head fuel (pop dir) in
    elim (has_parent dir) [
      | false ↦ could_not_find
      | true ↦ elim (has_git_head dir) [ true ↦ rerun_if_changed dir | false ↦ rest ]
    ]
