-- ===== src/Build/Search.antt =====
-- What the search of build.rs finds.
use archer_in_zoo.Prelude.{
  ℕ, zero, suc, ◌<◌, ◌≡◌, refl, Bool, true, false, List, [], ◌∷◌, length, arith, Bool-cases, inl,
  inr,
}
use archer_in_zoo.Build.{Dir, Searched, rerun_if_changed, could_not_find, search}

-- The directories from one up to the last below the root.
abbrev pub ancestors : Dir → List Dir
ancestors [] = []
ancestors (name ∷ parent) = (name ∷ parent) ∷ ancestors parent

-- The first of some directories that has the file.
abbrev pub first_with : (Dir → Bool) → List Dir → Searched
first_with has_git_head [] = could_not_find
first_with has_git_head (d ∷ ds) = elim (has_git_head d) [
  | true ↦ rerun_if_changed d
  | false ↦ first_with has_git_head ds
]

-- With more fuel than the directory has components the loop ends, and it has found the closest of the
-- directory and its ancestors below the root that has the file, or none where none has it.
pub search-first_with :
    (has_git_head : Dir → Bool) (fuel : ℕ) (dir : Dir)
    → length dir < fuel
    → search has_git_head fuel dir ≡ first_with has_git_head (ancestors dir)
unfolding search
search-first_with has_git_head zero dir enough = absurd (omega arith)
search-first_with has_git_head (suc fuel) [] enough = refl
search-first_with has_git_head (suc fuel) (name ∷ parent) enough =
    elim (Bool-cases (has_git_head (name ∷ parent))) [
      | inl there ↦ rw (there, search) refl
      | inr missing ↦
          rw (missing, search) (search-first_with has_git_head fuel parent (omega (arith, enough)))
    ]
