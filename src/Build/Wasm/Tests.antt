-- ===== src/Build/Wasm/Tests.antt =====
-- The compiler that a language server sets.
use Prim.Native.Char.{code}
use Prim.Native.String.{String}
use archer_in_zoo.Prelude.{ℕ, ◌≡◌, refl, none, some, List, [], ◌∷◌, ◌++◌}
use archer_in_zoo.Build.Wasm.{rls, cargo, set_cargo}
use archer_in_zoo.Build.Wasm.Replaced.{set_cargo-append}

abbrev codes : String → List ℕ
codes String.[] = []
codes (String.◌∷◌ c s) = code c ∷ codes s

plain_test : set_cargo (codes "/bin/cargo") ≡ none
unfolding set_cargo
plain_test = refl

-- The home of a user `charls` is changed as well.
home_test : set_cargo (codes "/charls/bin/rls") ≡ some (codes "/chacargo/bin/cargo")
unfolding set_cargo
home_test = refl

set_cargo-append_example :
    (set_cargo (codes "/cha" ++ rls) ≡ some (codes "/cha" ++ cargo))
    × (set_cargo (codes "/cha" ++ (rls ++ (codes "/bin/" ++ rls)))
        ≡ some (codes "/cha" ++ (cargo ++ (codes "/bin/" ++ cargo))))
unfolding archer_in_zoo.Build.Wasm.starts_with
set_cargo-append_example = set_cargo-append (codes "/cha") (codes "/bin/") refl refl
