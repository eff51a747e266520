-- ===== src/Template/Calls.antt =====
-- What the storage of template.rs holds after calls.
use archer_in_zoo.Prelude.{
  ℕ, ◌≡◌, refl, sym, ◌∙◌, Option, none, some, List, [], ◌∷◌, ◌++◌, Option-cases, inl, inr,
}
use mathlib.Core.List.{append_assoc, append-nil}
use archer_in_zoo.System.{System}
use archer_in_zoo.Template.{TemplateEvent, something_stored, TemplateStore, do_something, do_all}

-- The value of the last event, or an earlier one.
abbrev pub last_stored : List TemplateEvent → Option ℕ → Option ℕ
last_stored [] v = v
last_stored (something_stored value who ∷ es) v = last_stored es (some value)

module _ {Origin : Type 0} (sys : System Origin) where
  -- The event of a call: one where the call is signed.
  abbrev event_of : Option ℕ → (something : ℕ) → List TemplateEvent
  event_of none something = []
  event_of (some who) something = something_stored something who ∷ []

  abbrev pub accepted : List (Origin × ℕ) → List TemplateEvent
  accepted [] = []
  accepted ((origin, value) ∷ calls) = event_of (sys.ensure_signed origin) value ++ accepted calls

  -- A history of calls deposits the events of those that are signed, in their order, and leaves the
  -- value of the last of them, or the earlier value where none is signed.
  pub do_all_lem :
      (calls : List (Origin × ℕ)) (s : TemplateStore)
      → ((do_all sys calls s).events ≡ s.events ++ accepted calls)
        × ((do_all sys calls s).something ≡ last_stored (accepted calls) s.something)
  unfolding do_all do_something
  do_all_lem [] s = (sym (append-nil s.events), refl)
  do_all_lem ((origin, value) ∷ calls) s = elim (Option-cases (sys.ensure_signed origin)) [
    | inl unsigned ↦ let rest = do_all_lem calls s in rw (unsigned, do_all, do_something) rest
    | inr (who, signed) ↦
        let e = something_stored value who in
        let (events, last) =
          do_all_lem calls (record { something = some value; events = s.events ++ e ∷ [] }) in
        rw (signed, do_all, do_something)
          (events ∙ append_assoc s.events (e ∷ []) (accepted calls), last)
  ]
