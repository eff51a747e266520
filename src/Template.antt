-- ===== src/Template.antt =====
-- substrate-kitties/runtime/src/template.rs: the framework's sample module, which the runtime does not
-- include.
pub mod Calls
pub mod Tests
use archer_in_zoo.Prelude.{ℕ, Option, none, some, List, [], ◌∷◌, ◌++◌}
use archer_in_zoo.Outcome.{◌>>=◌, ◌>>◌, Action, pure, or_raise, modify, bad_origin}
use archer_in_zoo.System.{System}

pub data TemplateEvent : Type 0 where
  something_stored : (something who : ℕ) → TemplateEvent

pub record TemplateStore : Type 0 where
  pub something : Option ℕ
  pub events : List TemplateEvent

abbrev pub put_something : ℕ → TemplateStore → TemplateStore
put_something value s = record s { something = some value }

abbrev pub deposit_event : TemplateEvent → TemplateStore → TemplateStore
deposit_event e s = record s { events = s.events ++ e ∷ [] }

unfoldable pub do_something :
    {Origin : Type 0} → System Origin → Origin → (something : ℕ) → Action TemplateStore (Unit {0})
do_something sys origin something = do
  who ← or_raise (sys.ensure_signed origin) bad_origin
  modify (put_something something)
  modify (deposit_event (something_stored something who))
  pure tt

-- The storage after a history of calls.
unfoldable pub do_all :
    {Origin : Type 0} → System Origin → List (Origin × ℕ) → TemplateStore → TemplateStore
unfolding do_something
do_all sys [] s = s
do_all sys ((origin, something) ∷ calls) s =
    do_all sys calls (do_something sys origin something s).1

abbrev pub empty_template : TemplateStore
empty_template = record { something = none; events = [] }
