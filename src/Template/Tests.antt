-- ===== src/Template/Tests.antt =====
-- The unit test of template.rs.
use archer_in_zoo.Prelude.{ℕ, ◌≡◌, refl, Option, some, is_some, not}
use archer_in_zoo.Outcome.{ok}
use archer_in_zoo.System.{System}
use archer_in_zoo.Template.{do_something, empty_template}

abbrev some_system : System (Option ℕ)
some_system = record { ensure_signed = λ o. o; ensure_none = λ o. not (is_some o) }

unfoldable pub ItWorksForDefaultValue : Type 0
ItWorksForDefaultValue =
    let (result, s) = do_something some_system (some 1) 42 empty_template in
    (result ≡ ok tt) × (s.something ≡ some 42)

default_value_test : ItWorksForDefaultValue
unfolding ItWorksForDefaultValue do_something
default_value_test = (refl, refl)
