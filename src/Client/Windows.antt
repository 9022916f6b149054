-- ===== src/Client/Windows.antt =====
-- The windows of the client's screen: the conversations of `GuiClient` in
-- cmd/gjallarhorn-client/gui.go and the calls of cmd/gjallarhorn-client/alpenhorn.go. A pointer to a
-- `Conversation` is its number in a store that only grows. Each handler is one step, with the flags
-- that its goroutines set. The views of gocui are left out: the errors of making, raising and drawing
-- them, on which the source panics, do not occur here.
pub mod Sound
pub mod Steps
pub mod Opening
pub mod Talking
pub mod Calls
use gjallarhorn.Prelude.{
  ℕ, zero, suc, ◌≡◌, Bool, true, false, List, [], ◌∷◌, ◌++◌, Option, none, some, if◌then◌else◌,
  length, get_elem?,
}
use gjallarhorn.Prelude.Bytes.{Bytes, bytes_equal}
use gjallarhorn.Conversation.{
  Conversation, init, KeywheelStart, activate, mark_unread, queue_text_message,
}
use gjallarhorn.Conversation.Keys.{
  std_round_syncer, outgoing_call_convo_round, incoming_call_convo_round,
}
use gjallarhorn.Client.Active.{GuiClient, activate_convo, deactivate_convo}

-- A conversation with its held call.
pub record Window : Type 0 where
  pub convo : Conversation
  pub pending_call : Option KeywheelStart

pub record Gui : Type 0 where
  pub my_name : Bytes
  pub store : List Window
  pub conversations : List ℕ
  pub selected_convo : Option ℕ
  pub table : GuiClient
  pub main_unread : Bool

abbrev pub update_at {ℓ} : {A : Type ℓ} → ℕ → (A → A) → List A → List A
update_at i f [] = []
update_at zero f (x ∷ xs) = f x ∷ xs
update_at (suc i) f (x ∷ xs) = x ∷ update_at i f xs

abbrev pub modify : ℕ → (Conversation → Conversation) → Gui → Gui
modify p f gui = record gui {
  store = update_at p (λ (w : Window). record w { convo = f w.convo }) gui.store;
}

-- The goroutine of `Printf` on the main window.
unfoldable pub mark_main : Gui → Gui
mark_main gui = elim gui.selected_convo [ none ↦ gui | some p ↦ record gui { main_unread = true } ]

abbrev pub set_focused : Bool → Conversation → Conversation
set_focused b c = record c { focused = b }

abbrev pub unfocus : Option ℕ → Gui → Gui
unfocus none gui = gui
unfocus (some p) gui = modify p (set_focused false) gui

unfoldable pub focus_main : Gui → Gui
focus_main gui = record (unfocus gui.selected_convo gui) {
  selected_convo = none;
  main_unread = false;
}

unfoldable pub focus_convo : ℕ → Gui → Gui
focus_convo p gui =
    modify p (λ c. record c { unread = false; focused = true })
      (record (unfocus gui.selected_convo gui) { selected_convo = some p })

-- Window 0 is the main one.
unfoldable pub focus_convo_index : ℕ → Gui → Gui
unfolding focus_main focus_convo
focus_convo_index zero gui = focus_main gui
focus_convo_index (suc i) gui = elim (get_elem? gui.conversations i) [
  | none ↦ gui
  | some p ↦ focus_convo p gui
]

abbrev pub is_named : Bytes → Option Window → Bool
is_named name none = false
is_named name (some w) = bytes_equal w.convo.peer_username name

-- The loop of `getOrCreateConvo`.
unfoldable pub find_convo : Bytes → List Window → List ℕ → Option ℕ
find_convo name store [] = none
find_convo name store (p ∷ ps) =
    if is_named name (get_elem? store p) then some p else find_convo name store ps

unfoldable pub get_or_create_convo : Bytes → Gui → Gui × ℕ
unfolding find_convo init
get_or_create_convo name gui = elim (find_convo name gui.store gui.conversations) [
  | some p ↦ (gui, p)
  | none ↦
      let p = length gui.store in
      (
        record gui {
          store = gui.store ++ (record { convo = init name gui.my_name; pending_call = none } ∷ []);
          conversations = gui.conversations ++ (p ∷ []);
        },
        p,
      )
]

abbrev pub hold_call : Option KeywheelStart → ℕ → Gui → Gui
hold_call call p gui = record gui {
  store = update_at p (λ (w : Window). record w { pending_call = call }) gui.store;
}

-- `activateConvo`, on the table and the conversation.
unfoldable pub activate_window : ℕ → KeywheelStart → Gui → Gui × Bool
unfolding activate_convo activate
activate_window p wheel gui =
    let (table, done) = activate_convo p gui.table in
    if done
    then (hold_call none p (modify p (activate wheel) (record gui { table = table })), true)
    else (gui, false)

unfoldable pub deactivate_window : ℕ → Gui → Gui × Bool
unfolding deactivate_convo
deactivate_window p gui =
    let (table, done) = deactivate_convo p gui.table in (record gui { table = table }, done)

-- What a handler writes or asks for; the texts of a notice follow from it.
pub data Notice : Type 0 where
  unknown_command : Bytes → Notice
  try_typing : Notice
  missing_argument : Notice
  register_usage : Notice
  checking_registration : Notice
  cannot_close_main : Notice
  try_call : Notice
  only_in_convo : Notice
  hung_up : Notice
  not_active : Notice
  no_pending_call : Notice
  now_talking : Notice
  too_many_active : Notice
  not_a_friend : Notice
  queued_call : Notice
  calling : Notice
  call_received : Notice
  no_latest_round : Notice
  error_sending_request : Notice
  queued_request : Bytes → Notice
  cannot_find_friend : Bytes → Notice
  removed_friend : Bytes → Notice
  error_approving : Notice
  approved_request : Bytes → Notice
  no_request_from : Bytes → Notice

pub data Effect : Type 0 where
  warns : Notice → Effect
  warns_in : ℕ → Notice → Effect
  said_in : ℕ → Bytes → Effect
  prints_help : Effect
  prints_friends : Effect
  prints_keywheel : Bytes → Effect
  connects : Effect
  registers : Bytes → Effect
  calls : Bytes → Effect
  requests_friend : Bytes → Effect
  removes_friend : Bytes → Effect
  approves : Bytes → Effect
  updates_intent : ℕ → Effect
  notifies : Effect

-- `Warnf` on the main window, and on a conversation.
abbrev pub warn : Notice → Gui → Gui × List Effect
warn n gui = (mark_main gui, warns n ∷ [])

abbrev pub warn_in : ℕ → Notice → Gui → Gui × List Effect
warn_in p n gui = (modify p mark_unread gui, warns_in p n ∷ [])

-- A call that the servers know of: the conversation becomes active, or the call is held.
abbrev pub start_call : ℕ → KeywheelStart → Gui → List Effect → Gui × List Effect
start_call p wheel gui effects =
    let (gui', done) = activate_window p wheel gui in
    if done then (gui', effects) else (
      modify p mark_unread (hold_call (some wheel) p gui),
      effects ++ (warns_in p too_many_active ∷ []),
    )

-- `SendingCall`, with the client's latest round, if it is connected, when nothing comes between its
-- parts: it holds no lock from finding the window to starting the conversation. `ReceivedCall` below
-- is the same for a call from the other side.
unfoldable pub sending_call : Option ℕ → Bytes → Bytes → Gui → Gui × List Effect
unfolding get_or_create_convo activate_window outgoing_call_convo_round mark_unread
sending_call latest username session_key gui =
    let (gui', p) = get_or_create_convo username gui in
    elim latest [
      | none ↦ warn_in p no_latest_round gui'
      | some round ↦
          let (epoch_start, intent) = outgoing_call_convo_round std_round_syncer round in
          start_call p (record { session_key = session_key; convo_round = epoch_start })
            (modify p mark_unread gui') (warns_in p calling ∷ updates_intent intent ∷ [])
    ]

unfoldable pub received_call : Option ℕ → Bytes → Bytes → ℕ → Gui → Gui × List Effect
unfolding get_or_create_convo activate_window incoming_call_convo_round mark_unread
received_call latest username session_key intent gui =
    let (gui', p) = get_or_create_convo username gui in
    let rung = modify p mark_unread gui' in
    let heard : List Effect = warns_in p call_received ∷ notifies ∷ [] in
    elim latest [
      | none ↦ (modify p mark_unread rung, heard ++ (warns_in p no_latest_round ∷ []))
      | some round ↦
          start_call p
            (record {
              session_key = session_key;
              convo_round = incoming_call_convo_round std_round_syncer round intent;
            })
            rung heard
    ]
