-- ===== src/Build/Tests.antt =====
-- A repository whose root is two directories above the manifest.
use text.Mathlib.Text.{◌==◌}
use archer_in_zoo.Prelude.{◌≡◌, refl, Bool, false, [], ◌∷◌, arith}
use archer_in_zoo.Build.{Dir, rerun_if_changed, search}
use archer_in_zoo.Build.Search.{ancestors, first_with, search-first_with}

abbrev is_repository : Dir → Bool
is_repository [] = false
is_repository (name ∷ parent) = name == "zoo"

abbrev manifest : Dir
manifest = "kitties" ∷ "crates" ∷ "zoo" ∷ "home" ∷ []

search_test : search is_repository 5 manifest ≡ rerun_if_changed ("zoo" ∷ "home" ∷ [])
unfolding search
search_test = refl

search-first_with_example :
    search is_repository 5 manifest ≡ first_with is_repository (ancestors manifest)
search-first_with_example = search-first_with is_repository 5 manifest (omega arith)
