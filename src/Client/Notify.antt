-- ===== src/Client/Notify.antt =====
-- Desktop notes of new messages: cmd/gjallarhorn-client/notify.go. The loop's timer and the two
-- channels, of one place each, are the state; time goes in ticks of any length, of which `duration`
-- make four minutes. Where the loop has both channels to read from, it takes either.
pub mod Calm
mod Examples
use gjallarhorn.Prelude.{ℕ, zero, suc, ◌≡◌, Bool, true, false, List, [], ◌∷◌, Option, none, some}
use gjallarhorn.Prelude.Bytes.{Bytes}

-- What the loop has done, with the time: begun at 0, reset its timer, or shown a note.
pub data Event : Type 0 where
  begun : Event
  reset_at : ℕ → Event
  shown_at : ℕ → Bytes → Event

-- A timer of Go: the ticks until it fires, if it runs, and whether its channel holds a value.
pub record Timer : Type 0 where
  pub left : Option ℕ
  pub fired : Bool

pub record Notifier : Type 0 where
  pub now : ℕ
  pub timer : Timer
  pub notify_chan : Option Bytes
  pub reset_chan : Bool
  pub log : List Event

abbrev pub run_timer : Option ℕ → Bool → Timer
run_timer none fired = record { left = none; fired = fired }
run_timer (some zero) fired = record { left = none; fired = true }
run_timer (some (suc zero)) fired = record { left = none; fired = true }
run_timer (some (suc (suc n))) fired = record { left = some (suc n); fired = fired }

unfoldable pub tick : Notifier → Notifier
tick s = record s { now = suc s.now; timer = run_timer s.timer.left s.timer.fired }

-- A channel that is full takes nothing.
unfoldable pub seldom_notify : Bytes → Notifier → Notifier
seldom_notify msg s = record s {
  notify_chan = elim s.notify_chan [ none ↦ some msg | some old ↦ some old ];
}

unfoldable pub reset_notify_timer : Notifier → Notifier
reset_notify_timer s = record s { reset_chan = true }

-- `none` is a loop that waits for ever.
abbrev pub drained : Option ℕ → Bool → Option Bool
drained (some left) fired = some fired
drained none true = some false
drained none false = none

module _ (duration : ℕ) where
  unfoldable pub new_notifier : Notifier
  new_notifier = record {
    now = 0;
    timer = record { left = some duration; fired = false };
    notify_chan = none;
    reset_chan = false;
    log = begun ∷ [];
  }

  -- The first case of the loop, which has received a reset. `Stop` tells whether the timer ran.
  unfoldable pub take_reset : Notifier → Option Notifier
  take_reset s = elim (drained s.timer.left s.timer.fired) [
    | none ↦ none
    | some fired ↦ some (record s {
      timer = record { left = some duration; fired = fired };
      reset_chan = false;
      log = reset_at s.now ∷ s.log;
    })
  ]

  -- The second case, which has received a message: it is lost unless the timer has fired.
  abbrev pub show_if : Bool → Bytes → Notifier → Notifier
  show_if false msg s = record s { notify_chan = none }
  show_if true msg s = record s {
    timer = record { left = some duration; fired = false };
    notify_chan = none;
    log = shown_at s.now msg ∷ s.log;
  }

  unfoldable pub take_message : Bytes → Notifier → Notifier
  take_message msg s = show_if s.timer.fired msg s

  pub data Step : Notifier → Notifier → Type 0 where
    ticks : (s : Notifier) → Step s (tick s)
    notifies : (s : Notifier) (msg : Bytes) → Step s (seldom_notify msg s)
    resets : (s : Notifier) → Step s (reset_notify_timer s)
    takes_reset :
        (s : Notifier) {s' : Notifier} → s.reset_chan ≡ true → take_reset s ≡ some s' → Step s s'
    takes_message :
        (s : Notifier) (msg : Bytes) → s.notify_chan ≡ some msg → Step s (take_message msg s)

  pub data Reached : Notifier → Type 0 where
    start : Reached new_notifier
    next : {s s' : Notifier} → Reached s → Step s s' → Reached s'
