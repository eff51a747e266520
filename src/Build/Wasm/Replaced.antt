-- ===== src/Build/Wasm/Replaced.antt =====
-- Which program build.rs of the runtime has chosen.
use archer_in_zoo.Prelude.{
  ℕ, ◌≡◌, refl, ap, ◌∙◌, Bool, true, false, ◌||◌, some, List, [], ◌∷◌, ◌++◌, arith,
}
use archer_in_zoo.Build.Wasm.{rls, cargo, starts_with, ends_with, replace, set_cargo}

-- Somewhere in the text.
abbrev pub occurs : (pattern text : List ℕ) → Bool
occurs pattern [] = false
occurs pattern (x ∷ xs) = starts_with pattern (x ∷ xs) || occurs pattern xs

-- No occurrence reaches from a text into one that follows it.
starts_with-append :
    (x : ℕ) (d rest : List ℕ)
    → starts_with rls (x ∷ d) ≡ false
    → starts_with rls (x ∷ (d ++ (rls ++ rest))) ≡ false
unfolding starts_with
starts_with-append x [] rest e = ground arith
starts_with-append x (y ∷ []) rest e = ground arith
starts_with-append x (y ∷ z ∷ d) rest e = ground (arith, e)

ends_with-append : (d text : List ℕ) → ends_with rls text ≡ true → ends_with rls (d ++ text) ≡ true
unfolding ends_with
ends_with-append [] text e = e
ends_with-append (x ∷ d) text e = ground (arith, ends_with-append d text e)

-- The first occurrence after a text without one is replaced.
replace-append :
    (d rest : List ℕ)
    → occurs rls d ≡ false
    → replace rls cargo 0 (d ++ (rls ++ rest)) ≡ d ++ (cargo ++ replace rls cargo 0 rest)
unfolding replace starts_with
replace-append [] rest e = refl
replace-append (x ∷ d) rest e =
    let apart = starts_with-append x d rest (ground (arith, e)) in
    rw (apart, replace) (ap (λ l. x ∷ l) (replace-append d rest (ground (arith, e))))

-- Where `rls` ends the variable and stands nowhere before that, it alone becomes `cargo`; where it
-- stands once more before that, it is replaced there too.
pub set_cargo-append :
    (d d' : List ℕ)
    → occurs rls d ≡ false
    → occurs rls d' ≡ false
    → (set_cargo (d ++ rls) ≡ some (d ++ cargo))
      × (set_cargo (d ++ (rls ++ (d' ++ rls))) ≡ some (d ++ (cargo ++ (d' ++ cargo))))
unfolding set_cargo ends_with
set_cargo-append d d' e e' =
    let last = replace-append d' [] e' in
    let inner : ends_with rls (rls ++ (d' ++ rls)) ≡ true =
      ends_with-append rls (d' ++ rls) (ends_with-append d' rls refl) in
    (
      rw (ends_with-append d rls refl) (ap some (replace-append d [] e)),
      rw (ends_with-append d (rls ++ (d' ++ rls)) inner)
          (ap some (replace-append d (d' ++ rls) e ∙ ap (λ l. d ++ (cargo ++ l)) last)),
    )
