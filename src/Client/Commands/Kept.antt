-- ===== src/Client/Commands/Kept.antt =====
-- The commands of cmd/gjallarhorn-client/commands.go on the windows keep what holds of them.
use gjallarhorn.Prelude.{
  ℕ, zero, suc, ◌≡◌, refl, Bool, true, false, List, [], ◌∷◌, Option, none, some, if◌then◌else◌,
  ◌==◌, length, get_elem?, Option-cases, inl, inr,
}
use gjallarhorn.Prelude.Bytes.{Bytes, bytes_eq}
use gjallarhorn.Conversation.{KeywheelStart, mark_unread}
use gjallarhorn.Client.Windows.{
  Window, Gui, Effect, modify, warn, warn_in, focus_main, focus_convo, get_or_create_convo,
  activate_window, deactivate_window, cannot_close_main, too_many_active, calls, warns_in,
  queued_call, not_a_friend, try_call, only_in_convo, hung_up, not_active,
}
use gjallarhorn.Client.Windows.Sound.{IsSound}
use gjallarhorn.Client.Windows.Steps.{mark_main-IsSound, focus_main-IsSound, focus_convo-IsSound}
use gjallarhorn.Client.Windows.Opening.{get_or_create_convo-Opened}
use gjallarhorn.Client.Windows.Talking.{
  mark_unread-IsSound, focus_convo_index-IsSound, activate_window-IsSound,
  deactivate_window-IsSound,
}
use gjallarhorn.Client.Commands.{
  Alpenhorn, contains, done, panics, last_index, remove_at, window_number, do_w, do_wc, call_window,
  do_call, do_hangup, answer_call, do_answer,
}
use gjallarhorn.Client.Commands.Words.{parse_int}
use gjallarhorn.Client.Commands.Closing.{Keeps, close-Keeps}

pub either :
    (b : Bool) (x y : Gui × List Effect)
    → IsSound x.0
    → IsSound y.0
    → IsSound (if b then x else y).0
either true x y a c = a
either false x y a c = c

module _ (alp : Alpenhorn) (gui : Gui) (s : IsSound gui) where
  opened-IsSound :
      (name : Bytes) → let (gui', p) = get_or_create_convo name gui in IsSound (focus_convo p gui')
  opened-IsSound name =
      let o = get_or_create_convo-Opened name gui s in
      focus_convo-IsSound (get_or_create_convo name gui).0 o.sound.listed
        (get_or_create_convo name gui).1 o.there

  window_number-IsSound : (b : Bool) (n : ℕ) → IsSound (window_number b n gui)
  window_number-IsSound b zero = focus_main-IsSound gui s.listed
  window_number-IsSound true (suc n) = s
  window_number-IsSound false (suc n) = focus_convo_index-IsSound n gui s

  pub do_w-IsSound : (args : List Bytes) → IsSound (do_w args gui).0
  unfolding do_w
  do_w-IsSound [] = mark_main-IsSound gui s
  do_w-IsSound (arg ∷ args) = elim (Option-cases (parse_int arg)) [
    | inl e ↦ rw (do_w, e) (opened-IsSound arg)
    | inr (n, e) ↦ rw (do_w, e) (window_number-IsSound n.0 n.1)
  ]

  pub do_wc-Keeps : Keeps (do_wc gui)
  unfolding do_wc
  do_wc-Keeps = at gui.selected_convo refl
    where
      at :
          (o : Option ℕ)
          → gui.selected_convo ≡ o
          → Keeps (elim o [
            | none ↦ done (warn cannot_close_main gui)
            | some p ↦
                let gui' = (deactivate_window p gui).0 in
                elim (last_index p 0 none gui'.conversations) [
                  | none ↦ panics
                  | some i ↦ done (
                    focus_main (record gui' { conversations = remove_at i gui'.conversations }),
                    [],
                  )
                ]
          ])
      at none e = mark_main-IsSound gui s
      at (some p) e = close-Keeps gui p s e

  call_window-IsSound : (g : Gui) (p : ℕ) → IsSound g → IsSound (call_window alp p g).0
  call_window-IsSound g p t =
      either (length g.table.active == 5) (warn_in p too_many_active g)
        (in_window (get_elem? g.store p)) (mark_unread-IsSound p g t) (at (get_elem? g.store p))
    where
      in_window : Option Window → Gui × List Effect
      in_window none = (g, [])
      in_window (some win) =
          if contains win.convo.peer_username alp.friends
          then (modify p mark_unread g, calls win.convo.peer_username ∷ warns_in p queued_call ∷ [])
          else warn_in p not_a_friend g

      at : (o : Option Window) → IsSound (in_window o).0
      at none = t
      at (some win) =
          either (contains win.convo.peer_username alp.friends)
            (modify p mark_unread g, calls win.convo.peer_username ∷ warns_in p queued_call ∷ [])
            (warn_in p not_a_friend g) (mark_unread-IsSound p g t) (mark_unread-IsSound p g t)

  pub do_call-IsSound : (args : List Bytes) → IsSound (do_call alp args gui).0
  unfolding do_call
  do_call-IsSound [] = at gui.selected_convo refl
    where
      at :
          (o : Option ℕ)
          → gui.selected_convo ≡ o
          → IsSound
              (elim o as (λ x. Gui × List Effect) [
                | none ↦ warn try_call gui
                | some p ↦ call_window alp p (focus_convo p gui)
              ]).0
      at none e = mark_main-IsSound gui s
      at (some p) e =
          call_window-IsSound (focus_convo p gui) p
            (focus_convo-IsSound gui s.listed p (s.chosen p e))
  do_call-IsSound (name ∷ args) =
      call_window-IsSound
        (focus_convo (get_or_create_convo name gui).1 (get_or_create_convo name gui).0)
        (get_or_create_convo name gui).1 (opened-IsSound name)

  pub do_hangup-IsSound : IsSound (do_hangup gui).0
  unfolding do_hangup
  do_hangup-IsSound = at gui.selected_convo
    where
      at :
          (o : Option ℕ)
          → IsSound
              (elim o as (λ x. Gui × List Effect) [
                | none ↦ warn only_in_convo gui
                | some p ↦
                    let (gui', ok) = deactivate_window p gui in
                    warn_in p (if ok then hung_up else not_active) gui'
              ]).0
      at none = mark_main-IsSound gui s
      at (some p) =
          mark_unread-IsSound p (deactivate_window p gui).0 (deactivate_window-IsSound p gui s)

  answer_call-IsSound :
      (p : ℕ) (call : Option KeywheelStart)
      → gui.selected_convo ≡ some p
      → IsSound (answer_call p call gui).0
  answer_call-IsSound p none e = mark_unread-IsSound p gui s
  answer_call-IsSound p (some wheel) e =
      mark_unread-IsSound p (activate_window p wheel gui).0
        (activate_window-IsSound p wheel gui (s.listed.allocated p (s.chosen p e)) s)

  pub do_answer-IsSound : IsSound (do_answer gui).0
  unfolding do_answer
  do_answer-IsSound = at gui.selected_convo refl
    where
      in_window :
          (p : ℕ) (o : Option Window)
          → gui.selected_convo ≡ some p
          → IsSound
              (elim o as (λ x. Gui × List Effect) [
                | none ↦ (gui, [])
                | some win ↦ answer_call p win.pending_call gui
              ]).0
      in_window p none e = s
      in_window p (some win) e = answer_call-IsSound p win.pending_call e

      at :
          (o : Option ℕ)
          → gui.selected_convo ≡ o
          → IsSound
              (elim o as (λ x. Gui × List Effect) [
                | none ↦ warn only_in_convo gui
                | some p ↦ elim (get_elem? gui.store p) [
                  | none ↦ (gui, [])
                  | some win ↦ answer_call p win.pending_call gui
                ]
              ]).0
      at none e = mark_main-IsSound gui s
      at (some p) e = in_window p (get_elem? gui.store p) e
