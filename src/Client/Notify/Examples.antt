-- ===== src/Client/Notify/Examples.antt =====
-- A run of the notes' loop, with ticks of two minutes.
use gjallarhorn.Prelude.{◌≡◌, refl, [], ◌∷◌, some, arith}
use gjallarhorn.Client.Notify.{
  shown_at, begun, Notifier, tick, seldom_notify, new_notifier, take_reset, take_message, Reached,
  start, next, ticks, notifies, takes_message,
}
use gjallarhorn.Client.Notify.Calm.{IsCalm, Reached-IsCalm, elapse, elapse-shown}

abbrev waiting : Notifier
waiting = seldom_notify (104 ∷ []) (tick (tick (new_notifier 2)))

abbrev shown : Notifier
shown = take_message 2 (104 ∷ []) waiting

shown_reached : Reached 2 shown
unfolding seldom_notify tick new_notifier
shown_reached =
    next
      (next (next (next start (ticks (new_notifier 2))) (ticks (tick (new_notifier 2))))
        (notifies (tick (tick (new_notifier 2))) (104 ∷ [])))
      (takes_message waiting (104 ∷ []) refl)

shown_run : shown.log ≡ shown_at 2 (104 ∷ []) ∷ begun ∷ []
unfolding seldom_notify tick new_notifier take_message
shown_run = refl

Reached-IsCalm_example : IsCalm 2 shown.log × ((s : Notifier) × (take_reset 2 shown ≡ some s))
Reached-IsCalm_example = Reached-IsCalm 2 (omega arith) shown_reached

elapse-shown_example :
    (take_message 2 (105 ∷ []) (seldom_notify (105 ∷ []) (elapse 2 shown))).log
    ≡ shown_at 4 (105 ∷ []) ∷ shown.log
unfolding seldom_notify tick new_notifier take_message
elapse-shown_example = elapse-shown 2 shown (105 ∷ []) (omega arith) shown_reached refl
