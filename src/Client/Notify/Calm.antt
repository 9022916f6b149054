-- ===== src/Client/Notify/Calm.antt =====
-- When notes are shown, and that the loop goes on.
use mathlib.Core.Path.{subst}
use gjallarhorn.Prelude.{
  ℕ, zero, suc, ◌+◌, ◌≤◌, ◌<◌, ◌≡◌, refl, sym, ap, ◌∙◌, Bool, true, false, List, [], ◌∷◌, Option,
  none, some, some_inj, arith,
}
use gjallarhorn.Prelude.Bytes.{Bytes}
use gjallarhorn.Client.Notify.{
  Event, begun, reset_at, shown_at, Notifier, run_timer, tick, seldom_notify, reset_notify_timer,
  drained, new_notifier, take_reset, show_if, take_message, Reached, start, next, ticks, notifies,
  resets, takes_reset, takes_message,
}

abbrev pub time_of : Event → ℕ
time_of begun = 0
time_of (reset_at t) = t
time_of (shown_at t msg) = t

abbrev pub last_time : List Event → ℕ
last_time [] = 0
last_time (e ∷ log) = time_of e

module _ (duration : ℕ) where
  -- An event may come at this time, the latest one before it being known.
  abbrev pub MayFollow : Event → Event → Type 0
  MayFollow (shown_at t msg) e = time_of e + duration ≤ t
  MayFollow (reset_at t) e = time_of e ≤ t
  MayFollow begun e = ⊥

  -- The newest event comes first, and the loop's beginning last.
  abbrev pub IsCalm : List Event → Type 0
  IsCalm [] = ⊥
  IsCalm (begun ∷ []) = Unit
  IsCalm (reset_at t ∷ []) = ⊥
  IsCalm (shown_at t msg ∷ []) = ⊥
  IsCalm (e ∷ d ∷ log) = MayFollow e d × IsCalm (d ∷ log)

  -- A timer either runs, and fires when the time since the last event is `duration`, or has fired.
  abbrev IsTimed : ℕ → ℕ → Option ℕ → Bool → Type 0
  IsTimed now last (some left) false = (0 < left) × (now + left ≡ last + duration)
  IsTimed now last (some left) true = ⊥
  IsTimed now last none true = last + duration ≤ now
  IsTimed now last none false = ⊥

  abbrev IsKept : Notifier → Type 0
  IsKept s =
      IsCalm s.log
      × (last_time s.log ≤ s.now)
      × IsTimed s.now (last_time s.log) s.timer.left s.timer.fired

  run_timer-IsTimed :
      (now last : ℕ) (left : Option ℕ) (fired : Bool)
      → IsTimed now last left fired
      → IsTimed (suc now) last (run_timer left fired).left (run_timer left fired).fired
  run_timer-IsTimed now last none true h = omega arith
  run_timer-IsTimed now last none false h = absurd h
  run_timer-IsTimed now last (some left) true h = absurd h
  run_timer-IsTimed now last (some zero) false h = absurd (omega (arith, h.0))
  run_timer-IsTimed now last (some (suc zero)) false h = omega (arith, h.1)
  run_timer-IsTimed now last (some (suc (suc n))) false h = (omega arith, omega (arith, h.1))

  drained_timed :
      (now last : ℕ) (left : Option ℕ) (fired : Bool)
      → IsTimed now last left fired
      → drained left fired ≡ some false
  drained_timed now last (some left) false h = refl
  drained_timed now last (some left) true h = absurd h
  drained_timed now last none true h = refl
  drained_timed now last none false h = absurd h

  fired_late : (now last : ℕ) (left : Option ℕ) → IsTimed now last left true → last + duration ≤ now
  fired_late now last none h = h
  fired_late now last (some left) h = absurd h

  module _ (some_time : 0 < duration) where
    IsCalm-more :
        (e : Event) (log : List Event)
        → IsCalm log
        → ((d : Event) → time_of d ≡ last_time log → MayFollow e d)
        → IsCalm (e ∷ log)
    IsCalm-more e [] calm after = absurd calm
    IsCalm-more e (d ∷ log) calm after = (after d refl, calm)

    show_if-IsKept :
        (msg : Bytes) (s : Notifier) (fired : Bool)
        → s.timer.fired ≡ fired
        → IsKept s
        → IsKept (show_if duration fired msg s)
    show_if-IsKept msg s false e h = h
    show_if-IsKept msg s true e (calm, late, timed) = (
      IsCalm-more (shown_at s.now msg) s.log calm (λ d at. omega (
        arith,
        fired_late s.now (last_time s.log) s.timer.left
            (subst (IsTimed s.now (last_time s.log) s.timer.left) e timed),
      )),
      omega arith,
      (some_time, refl),
    )

    take_reset-IsKept :
        (s : Notifier) → IsKept s → (s' : Notifier) × (take_reset duration s ≡ some s') × IsKept s'
    unfolding take_reset
    take_reset-IsKept s (calm, late, timed) = (
      record s {
        timer = record { left = some duration; fired = false };
        reset_chan = false;
        log = reset_at s.now ∷ s.log;
      },
      rw (take_reset, drained_timed s.now (last_time s.log) s.timer.left s.timer.fired timed),
      (
        IsCalm-more (reset_at s.now) s.log calm (λ d at. omega arith),
        omega arith,
        (some_time, refl),
      ),
    )

    Reached-IsKept : {s : Notifier} → Reached duration s → IsKept s
    unfolding new_notifier tick seldom_notify reset_notify_timer take_message
    Reached-IsKept start = (tt, omega arith, (some_time, refl))
    Reached-IsKept (next r (ticks s)) =
        let (calm, late, timed) = Reached-IsKept r in
        (
          calm,
          omega arith,
          run_timer-IsTimed s.now (last_time s.log) s.timer.left s.timer.fired timed,
        )
    Reached-IsKept (next r (notifies s msg)) = Reached-IsKept r
    Reached-IsKept (next r (resets s)) = Reached-IsKept r
    Reached-IsKept (next r (takes_reset s {s'} set taken)) =
        let (t, e, kept) = take_reset-IsKept s (Reached-IsKept r) in
        let same : t ≡ s' = some_inj (sym e ∙ taken) in subst IsKept same kept
    Reached-IsKept (next r (takes_message s msg here)) =
        show_if-IsKept msg s s.timer.fired refl (Reached-IsKept r)

-- As long as four minutes are not no time: in every state that the loop comes to, whatever is typed,
-- said and chosen, a note has been shown only when four minutes had gone by since the loop's
-- beginning, its latest reset and the latest note, and a reset does not make the loop wait for ever.
pub Reached-IsCalm :
    (duration : ℕ) {s : Notifier}
    → 0 < duration
    → Reached duration s
    → IsCalm duration s.log × ((s' : Notifier) × (take_reset duration s ≡ some s'))
Reached-IsCalm duration {s} some_time r =
    let kept = Reached-IsKept duration some_time r in
    let (s', goes_on, rest) = take_reset-IsKept duration some_time s kept in (kept.0, (s', goes_on))

unfoldable pub elapse : ℕ → Notifier → Notifier
elapse zero s = s
elapse (suc n) s = elapse n (tick s)

must_fire :
    (duration now last : ℕ) (left : Option ℕ) (fired : Bool)
    → IsTimed duration now last left fired
    → last + duration ≤ now
    → fired ≡ true
must_fire duration now last none true h late = refl
must_fire duration now last none false h late = absurd h
must_fire duration now last (some left) true h late = refl
must_fire duration now last (some left) false h late = absurd (omega (arith, h.0, h.1))

elapse-IsKept :
    (duration n : ℕ) (s : Notifier)
    → IsKept duration s
    → IsKept duration (elapse n s)
      × ((elapse n s).now ≡ s.now + n)
      × ((elapse n s).log ≡ s.log)
      × ((elapse n s).notify_chan ≡ s.notify_chan)
unfolding elapse tick
elapse-IsKept duration zero s kept = (kept, omega arith, refl, refl)
elapse-IsKept duration (suc n) s (calm, late, timed) =
    let (kept, now, log, chan) = elapse-IsKept duration n (tick s) (
      calm,
      omega arith,
      run_timer-IsTimed duration s.now (last_time s.log) s.timer.left s.timer.fired timed,
    ) in
    (kept, omega (arith, now), log, chan)

-- When the loop is left alone for four minutes, the message that comes then is shown, if the loop
-- takes it before a reset and no older message waits.
pub elapse-shown :
    (duration : ℕ) (s : Notifier) (msg : Bytes)
    → 0 < duration
    → Reached duration s
    → s.notify_chan ≡ none
    → (take_message duration msg (seldom_notify msg (elapse duration s))).log
      ≡ shown_at (s.now + duration) msg ∷ s.log
unfolding take_message seldom_notify
elapse-shown duration s msg some_time r free =
    let before = Reached-IsKept duration some_time r in
    let (kept, now, log, chan) = elapse-IsKept duration duration s before in
    let t = elapse duration s in
    let late : last_time t.log + duration ≤ t.now =
      omega (arith, now, before.1, ap last_time log) in
    let fired : t.timer.fired ≡ true =
      must_fire duration t.now (last_time t.log) t.timer.left t.timer.fired kept.2 late in
    rw (take_message, fired) (rw (now, log))
