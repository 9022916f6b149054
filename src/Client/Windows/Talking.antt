-- ===== src/Client/Windows/Talking.antt =====
-- Calls and messages keep what holds of the windows.
use mathlib.Core.Path.{subst}
use gjallarhorn.Prelude.{
  ℕ, zero, suc, ◌≤◌, ◌≡◌, ◌<◌, refl, Bool, true, false, List, [], ◌∷◌, ◌++◌, Option, none, some,
  if◌then◌else◌, ltb, ◌==◌, arith, length, get_elem?, Bool-cases, inl, inr,
}
use gjallarhorn.Prelude.Bytes.{Bytes}
use gjallarhorn.Conversation.{
  Conversation, KeywheelStart, activate, mark_unread, queue_text_message,
}
use gjallarhorn.Client.Active.{
  GuiClient, member, remove, activate_convo, deactivate_convo, length-remove,
}
use gjallarhorn.Client.Windows.{
  Window, Gui, Effect, modify, focus_convo, focus_convo_index, hold_call, activate_window,
  deactivate_window, start_call, too_many_active, warns_in,
}
use gjallarhorn.Client.Windows.Sound.{IsSound, update-IsSound}
use gjallarhorn.Client.Windows.Steps.{focus_main-IsSound, focus_convo-IsSound}

pub get_elem?-member : (ps : List ℕ) (i p : ℕ) → get_elem? ps i ≡ some p → member p ps ≡ true
get_elem?-member [] i p h = ground arith
get_elem?-member (q ∷ ps) zero p h = ground arith
get_elem?-member (q ∷ ps) (suc i) p h = ground (arith, get_elem?-member ps i p h)

pub member-remove :
    (q p : ℕ) (ps : List ℕ)
    → member q (remove p ps) ≡ true
    → (member q ps ≡ true) × ((q == p) ≡ false)
member-remove q p [] m = cc
member-remove q p (r ∷ ps) m = elim (Bool-cases (r == p)) [
  | inl gone ↦ let (a, b) = member-remove q p ps (rw gone at m) in (ground arith, b)
  | inr kept ↦ elim (Bool-cases (r == q)) [
    | inl here ↦ (rw here, ground arith)
    | inr on ↦ let (a, b) = member-remove q p ps (rw on at (rw kept at m)) in (rw on a, b)
  ]
]

pub modify-IsSound :
    (f : Conversation → Conversation) (p : ℕ) (gui : Gui)
    → ((c : Conversation) → (f c).peer_username ≡ c.peer_username)
    → ((c : Conversation) → (f c).focused ≡ c.focused)
    → IsSound gui
    → IsSound (modify p f gui)
modify-IsSound f p gui named focused s =
    update-IsSound (λ (w : Window). record w { convo = f w.convo }) p gui (λ w. named w.convo)
      (λ w. focused w.convo) s

pub mark_unread-IsSound : (p : ℕ) (gui : Gui) → IsSound gui → IsSound (modify p mark_unread gui)
unfolding mark_unread
mark_unread-IsSound p gui s =
    modify-IsSound mark_unread p gui (λ c. ground arith) (λ c. ground arith) s

pub queue_text_message-IsSound :
    (p : ℕ) (line : Bytes) (gui : Gui)
    → IsSound gui
    → IsSound (modify p (queue_text_message true line) gui)
unfolding queue_text_message mark_unread
queue_text_message-IsSound p line gui s =
    modify-IsSound (queue_text_message true line) p gui (λ c. ground arith) (λ c. ground arith) s

pub hold_call-IsSound :
    (call : Option KeywheelStart) (p : ℕ) (gui : Gui) → IsSound gui → IsSound (hold_call call p gui)
hold_call-IsSound call p gui s =
    update-IsSound (λ (w : Window). record w { pending_call = call }) p gui (λ w. refl) (λ w. refl)
      s

pub focus_convo_index-IsSound :
    (i : ℕ) (gui : Gui) → IsSound gui → IsSound (focus_convo_index i gui)
unfolding focus_convo_index
focus_convo_index-IsSound zero gui s = focus_main-IsSound gui s.listed
focus_convo_index-IsSound (suc i) gui s = at (get_elem? gui.conversations i) refl
  where
    at :
        (o : Option ℕ)
        → get_elem? gui.conversations i ≡ o
        → IsSound (elim o [ none ↦ gui | some p ↦ focus_convo p gui ])
    at none e = s
    at (some p) e = focus_convo-IsSound gui s.listed p (get_elem?-member gui.conversations i p e)

-- A table whose active conversations are allocated and at most five.
retable :
    (gui : Gui) (table : GuiClient)
    → ((q : ℕ) → member q table.active ≡ true → q < length gui.store)
    → length table.active ≤ 5
    → IsSound gui
    → IsSound (record gui { table = table })
retable gui table talking few s = record {
  listed = record {
    allocated = s.listed.allocated;
    distinct = s.listed.distinct;
    talking = talking;
    few = few;
    focus = s.listed.focus;
  };
  chosen = s.chosen;
}

activate_convo-kept :
    (gui : Gui) (p : ℕ)
    → p < length gui.store
    → IsSound gui
    → IsSound (record gui { table = (activate_convo p gui.table).0 })
unfolding activate_convo
activate_convo-kept gui p there s =
    retable gui (activate_convo p gui.table).0 (λ q m. listed q m)
      (let few = s.listed.few in ground arith) s
  where
    listed : (q : ℕ) → member q (activate_convo p gui.table).0.active ≡ true → q < length gui.store
    listed q m = elim (Bool-cases (ltb (length gui.table.active) 5)) [
      | inr full ↦ s.listed.talking q (rw (activate_convo, full) at m)
      | inl room ↦ elim (Bool-cases (member p gui.table.active)) [
        | inl old ↦ s.listed.talking q (rw (activate_convo, room, old) at m)
        | inr new ↦ elim (Bool-cases (p == q)) [
          | inl same ↦ let e : p ≡ q = ground arith in subst (λ r. r < length gui.store) e there
          | inr other ↦ s.listed.talking q (rw (activate_convo, room, new, other) at m)
        ]
      ]
    ]

pub activate_window-IsSound :
    (p : ℕ) (wheel : KeywheelStart) (gui : Gui)
    → p < length gui.store
    → IsSound gui
    → IsSound (activate_window p wheel gui).0
unfolding activate_window activate
activate_window-IsSound p wheel gui there s = ended (activate_convo p gui.table).1 (
    hold_call-IsSound none p
      (modify p (activate wheel) (record gui { table = (activate_convo p gui.table).0 }))
      (modify-IsSound (activate wheel) p (record gui { table = (activate_convo p gui.table).0 })
        (λ c. refl) (λ c. refl) (activate_convo-kept gui p there s)))
  where
    ended :
        (b : Bool) {active : Gui}
        → IsSound active
        → IsSound (if◌then◌else◌ {A = Gui × Bool} b (active, true) (gui, false)).0
    ended true a = a
    ended false a = s

pub deactivate_window-IsSound :
    (p : ℕ) (gui : Gui) → IsSound gui → IsSound (deactivate_window p gui).0
unfolding deactivate_window deactivate_convo
deactivate_window-IsSound p gui s =
    retable gui (deactivate_convo p gui.table).0 (λ q m. listed q m)
      (let few = s.listed.few in ground (arith, length-remove p gui.table.active)) s
  where
    listed :
        (q : ℕ) → member q (deactivate_convo p gui.table).0.active ≡ true → q < length gui.store
    listed q m = elim (Bool-cases (member p gui.table.active)) [
      | inl there ↦
          s.listed.talking q
            (member-remove q p gui.table.active (rw (deactivate_convo, there) at m)).0
      | inr away ↦ s.listed.talking q (rw (deactivate_convo, away) at m)
    ]

pub start_call-IsSound :
    (p : ℕ) (wheel : KeywheelStart) (gui : Gui) (effects : List Effect)
    → p < length gui.store
    → IsSound gui
    → IsSound (start_call p wheel gui effects).0
start_call-IsSound p wheel gui effects there s =
    ended (activate_window p wheel gui) (activate_window-IsSound p wheel gui there s)
  where
    ended :
        (r : Gui × Bool)
        → IsSound r.0
        → IsSound
            (if◌then◌else◌ {A = Gui × List Effect} r.1
              (r.0, effects)
              (
                modify p mark_unread (hold_call (some wheel) p gui),
                effects ++ (warns_in p too_many_active ∷ []),
              )).0
    ended (g, true) a = a
    ended (g, false) a =
        mark_unread-IsSound p (hold_call (some wheel) p gui)
          (hold_call-IsSound (some wheel) p gui s)
