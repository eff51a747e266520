-- ===== src/Node/Exit/Tests.antt =====
-- A channel that knows whether its receiver was dropped.
use archer_in_zoo.Prelude.{◌≡◌, refl, Bool, true, false, none, some, [], ◌∷◌}
use archer_in_zoo.Node.Exit.{Oneshot, OneshotLaws, signal, receiver_dropped, on_events, into_exit}
use archer_in_zoo.Node.Exit.Signals.{counts, expected, on_events-expected}

abbrev flag : Oneshot
flag = record {
  Channel = Bool;
  channel = false;
  is_canceled = λ c. c;
  cancel = λ c. true;
  send = λ c. elim c [ true ↦ none | false ↦ some false ];
}

flag-OneshotLaws : OneshotLaws flag
flag-OneshotLaws = record {
  opened = refl;
  canceled = λ c. refl;
  refused = λ c e. rw e refl;
  accepted = λ c e. (false, rw e refl);
}

on_events-expected_example :
    counts flag (on_events flag (receiver_dropped ∷ signal ∷ signal ∷ []) (into_exit flag))
    ≡ expected false (receiver_dropped ∷ signal ∷ signal ∷ [])
on_events-expected_example =
    on_events-expected flag flag-OneshotLaws (receiver_dropped ∷ signal ∷ signal ∷ [])

-- The first signal after the service has ended panics.
late_test : expected false (receiver_dropped ∷ signal ∷ []) ≡ (0, 1)
late_test = refl
