-- ===== src/Kitties/Tests/Links.antt =====
-- The two unit tests of kitties.rs, assertion by assertion.
use archer_in_zoo.Prelude.{◌≡◌, refl, none, some}
use archer_in_zoo.LinkedItem.{item, append, remove}
use archer_in_zoo.Kitties.Tests.{no_links}

unfoldable pub OwnedKittiesCanAppendValues : Type 0
OwnedKittiesCanAppendValues =
    let one = append 0 1 no_links in
    let two = append 0 2 one in
    let three = append 0 3 two in
    (one 0 none ≡ some (item (some 1) (some 1)))
    × (one 0 (some 1) ≡ some (item none none))
    × (two 0 none ≡ some (item (some 2) (some 1)))
    × (two 0 (some 1) ≡ some (item none (some 2)))
    × (two 0 (some 2) ≡ some (item (some 1) none))
    × (three 0 none ≡ some (item (some 3) (some 1)))
    × (three 0 (some 1) ≡ some (item none (some 2)))
    × (three 0 (some 2) ≡ some (item (some 1) (some 3)))
    × (three 0 (some 3) ≡ some (item (some 2) none))

append_test : OwnedKittiesCanAppendValues
unfolding OwnedKittiesCanAppendValues append
append_test = (refl, refl, refl, refl, refl, refl, refl, refl, refl)

unfoldable pub OwnedKittiesCanRemoveValues : Type 0
OwnedKittiesCanRemoveValues =
    let three = append 0 3 (append 0 2 (append 0 1 no_links)) in
    let without_2 = remove 0 2 three in
    let without_1 = remove 0 1 without_2 in
    let without_3 = remove 0 3 without_1 in
    (without_2 0 none ≡ some (item (some 3) (some 1)))
    × (without_2 0 (some 1) ≡ some (item none (some 3)))
    × (without_2 0 (some 2) ≡ none)
    × (without_2 0 (some 3) ≡ some (item (some 1) none))
    × (without_1 0 none ≡ some (item (some 3) (some 3)))
    × (without_1 0 (some 1) ≡ none)
    × (without_1 0 (some 2) ≡ none)
    × (without_1 0 (some 3) ≡ some (item none none))
    × (without_3 0 none ≡ some (item none none))
    × (without_3 0 (some 1) ≡ none)
    × (without_3 0 (some 2) ≡ none)
    × (without_3 0 (some 2) ≡ none)

remove_test : OwnedKittiesCanRemoveValues
unfolding OwnedKittiesCanRemoveValues append remove
remove_test = (refl, refl, refl, refl, refl, refl, refl, refl, refl, refl, refl, refl)
