-- ===== src/Node/Exit.antt =====
-- `Exit` in substrate-kitties/src/cli.rs: the handler of Ctrl-C and its one notification.
pub mod Signals
pub mod Tests
use archer_in_zoo.Prelude.{ℕ, ◌+◌, ◌≡◌, Bool, true, false, Option, none, some, List, [], ◌∷◌}

-- `futures::sync::oneshot`, as far as it is used: what is known of a channel when it is sent on.
pub record Oneshot : Type 1 where
  pub Channel : Type 0
  pub channel : Channel
  pub is_canceled : Channel → Bool
  -- The receiver is dropped.
  pub cancel : Channel → Channel
  -- `none` is an error.
  pub send : Channel → Option Channel

-- What is documented of it.
pub record OneshotLaws (o : Oneshot) : Type 0 where
  pub opened : o.is_canceled o.channel ≡ false
  pub canceled : (c : o.Channel) → o.is_canceled (o.cancel c) ≡ true
  pub refused : (c : o.Channel) → o.is_canceled c ≡ true → o.send c ≡ none
  pub accepted : (c : o.Channel) → o.is_canceled c ≡ false → (c' : o.Channel) × (o.send c ≡ some c')

-- What happens to the handler: a signal, or the end of `run_until_exit`'s wait, which drops the
-- receiver.
pub data Event : Type 0 where
  signal receiver_dropped : Event

module _ (o : Oneshot) where
  -- Whether the cell has the sender, the channel, the notifications sent, and the panics.
  pub record Handler : Type 0 where
    pub exit_send_cell : Bool
    pub channel : o.Channel
    pub sent : ℕ
    pub panics : ℕ

  unfoldable pub into_exit : Handler
  into_exit = record { exit_send_cell = true; channel = o.channel; sent = 0; panics = 0 }

  -- `send(()).expect(..)`
  unfoldable pub notify : Option o.Channel → Handler → Handler
  notify none h = record h { panics = h.panics + 1 }
  notify (some c) h = record h { channel = c; sent = h.sent + 1 }

  -- `take`: the sender leaves the cell whether or not it can send.
  unfoldable pub take_and_send : (exit_send : Bool) → Handler → Handler
  unfolding notify
  take_and_send false h = h
  take_and_send true h = notify (o.send h.channel) (record h { exit_send_cell = false })

  unfoldable pub handle : Handler → Handler
  unfolding take_and_send
  handle h = take_and_send h.exit_send_cell h

  unfoldable pub on_event : Event → Handler → Handler
  unfolding handle
  on_event signal h = handle h
  on_event receiver_dropped h = record h { channel = o.cancel h.channel }

  unfoldable pub on_events : List Event → Handler → Handler
  unfolding on_event
  on_events [] h = h
  on_events (e ∷ es) h = on_events es (on_event e h)
