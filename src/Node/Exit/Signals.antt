-- ===== src/Node/Exit/Signals.antt =====
-- What the handler of Ctrl-C does over all sequences of events.
use archer_in_zoo.Prelude.{
  ℕ, ◌≡◌, refl, ap, ◌∙◌, Bool, true, false, Option, none, some, List, [], ◌∷◌, arith, Bool-cases,
  inl, inr,
}
use archer_in_zoo.Node.Exit.{
  Oneshot, OneshotLaws, Event, signal, receiver_dropped, Handler, into_exit, handle, take_and_send,
  notify, on_event, on_events,
}

-- The notifications and panics that a sequence of events is to make: the first signal decides.
abbrev pub expected : (dropped : Bool) → List Event → ℕ × ℕ
expected dropped [] = (0, 0)
expected dropped (receiver_dropped ∷ es) = expected true es
expected false (signal ∷ es) = (1, 0)
expected true (signal ∷ es) = (0, 1)

module _ (o : Oneshot) where
  -- The notifications that were sent, and the panics.
  abbrev pub counts : Handler o → ℕ × ℕ
  counts h = (h.sent, h.panics)

  handle_taken : (h : Handler o) → h.exit_send_cell ≡ false → handle o h ≡ h
  unfolding handle
  handle_taken h e = ap (λ b. take_and_send o b h) e

  -- Without the sender nothing is counted any more.
  counts_taken :
      (es : List Event) (h : Handler o)
      → h.exit_send_cell ≡ false
      → counts (on_events o es h) ≡ counts h
  unfolding on_events on_event
  counts_taken [] h e = refl
  counts_taken (signal ∷ es) h e =
      ap (λ x. counts (on_events o es x)) (handle_taken h e) ∙ counts_taken es h e
  counts_taken (receiver_dropped ∷ es) h e =
      counts_taken es (record h { channel = o.cancel h.channel }) e

  handle_held :
      (h : Handler o) {r : Option o.Channel}
      → h.exit_send_cell ≡ true
      → o.send h.channel ≡ r
      → handle o h ≡ notify o r (record h { exit_send_cell = false })
  unfolding handle
  handle_held h e sends =
      ap (λ b. take_and_send o b h) e
      ∙ ap (λ r. notify o r (record h { exit_send_cell = false })) sends

  counts_held :
      (laws : OneshotLaws o) (es : List Event) (h : Handler o)
      → h.exit_send_cell ≡ true
      → h.sent ≡ 0
      → h.panics ≡ 0
      → counts (on_events o es h) ≡ expected (o.is_canceled h.channel) es
  unfolding on_events on_event notify
  counts_held laws [] h e z z' = ground (arith, z, z')
  counts_held laws (receiver_dropped ∷ es) h e z z' =
      counts_held laws es (record h { channel = o.cancel h.channel }) e z z'
      ∙ ap (λ d. expected d es) (laws.canceled h.channel)
  counts_held laws (signal ∷ es) h e z z' = elim (Bool-cases (o.is_canceled h.channel)) [
    | inl canceled ↦
        let after = notify o none (record h { exit_send_cell = false }) in
        let sends = handle_held h e (laws.refused h.channel canceled) in
        let counted : counts after ≡ (0, 1) = ground (arith, z, z') in
        rw canceled
          (ap (λ x. counts (on_events o es x)) sends ∙ counts_taken es after refl ∙ counted)
    | inr open_yet ↦
        let (c, sends') = laws.accepted h.channel open_yet in
        let after = notify o (some c) (record h { exit_send_cell = false }) in
        let sends = handle_held h e sends' in
        let counted : counts after ≡ (1, 0) = ground (arith, z, z') in
        rw open_yet
          (ap (λ x. counts (on_events o es x)) sends ∙ counts_taken es after refl ∙ counted)
  ]

  -- Where the channel behaves as documented, the handler of `into_exit` sends one notification in all
  -- where a signal comes before the receiver is dropped, panics once where the first signal comes later,
  -- and does neither where no signal comes; all later signals do nothing.
  pub on_events-expected :
      (laws : OneshotLaws o) (es : List Event)
      → counts (on_events o es (into_exit o)) ≡ expected false es
  unfolding into_exit
  on_events-expected laws es =
      counts_held laws es (into_exit o) refl refl refl ∙ ap (λ d. expected d es) laws.opened
