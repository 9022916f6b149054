-- ===== src/Client/Commands.antt =====
-- The commands of the client: the table of cmd/gjallarhorn-client/commands.go, and `readLine` and
-- `handleLine` of cmd/gjallarhorn-client/gui.go. A line is of ASCII characters. What a command
-- prints or asks the Alpenhorn client for is a list of effects.
pub mod Words
pub mod Closing
pub mod Kept
pub mod Reached
pub mod Completion
mod Examples
use gjallarhorn.Prelude.{
  ℕ, zero, suc, ◌-◌, ◌+◌, ◌≡◌, Bool, true, false, ◌&&◌, List, [], ◌∷◌, ◌++◌, Option, none, some,
  if◌then◌else◌, ◌==◌, length, get_elem?, take, drop,
}
use gjallarhorn.Prelude.Bytes.{Bytes, bytes_equal, bytes_eq}
use gjallarhorn.Prelude.Maps.{Map, lookup}
use gjallarhorn.Conversation.{KeywheelStart, mark_unread, queue_text_message}
use gjallarhorn.Client.Active.{member}
use gjallarhorn.Client.Windows.{
  Window, Gui, modify, mark_main, focus_main, focus_convo, focus_convo_index, get_or_create_convo,
  activate_window, deactivate_window, Notice, Effect, warn, warn_in, unknown_command, try_typing,
  missing_argument, register_usage, checking_registration, cannot_close_main, try_call,
  only_in_convo, hung_up, not_active, no_pending_call, now_talking, too_many_active, not_a_friend,
  queued_call, error_sending_request, queued_request, cannot_find_friend, removed_friend,
  error_approving, approved_request, no_request_from, warns, warns_in, said_in, prints_help,
  prints_friends, prints_keywheel, connects, registers, calls, requests_friend, removes_friend,
  approves,
}
use Words.{fields, parse_int, trim_newlines}

-- What the commands ask of the Alpenhorn client. `has_session_key` is for the round that
-- `/debugfriend` asks for.
pub record Alpenhorn : Type 0 where
  pub friends : List Bytes
  pub incoming_requests : List Bytes
  pub request_fails : Bytes → Bool
  pub approve_fails : Bytes → Bool
  pub has_session_key : Bytes → Bool

abbrev pub contains : Bytes → List Bytes → Bool
contains name [] = false
contains name (n ∷ ns) = if bytes_equal n name then true else contains name ns

-- The end of a handler: the program goes on, ends by `ErrQuit`, or panics.
pub data Handled : Type 0 where
  done : Gui × List Effect → Handled
  quits : Handled
  panics : Handled

pub data Command : Type 0 where
  help : Command
  quit : Command
  connect : Command
  register : Command
  w : Command
  wc : Command
  list : Command
  debugfriend : Command
  call : Command
  hangup : Command
  answer : Command
  addfriend : Command
  delfriend : Command
  approve : Command

-- The table, with the commands' names in ASCII.
abbrev pub commands : Map Bytes Command
commands =
    (104 ∷ 101 ∷ 108 ∷ 112 ∷ [], help)
    ∷ (113 ∷ 117 ∷ 105 ∷ 116 ∷ [], quit)
    ∷ (99 ∷ 111 ∷ 110 ∷ 110 ∷ 101 ∷ 99 ∷ 116 ∷ [], connect)
    ∷ (114 ∷ 101 ∷ 103 ∷ 105 ∷ 115 ∷ 116 ∷ 101 ∷ 114 ∷ [], register)
    ∷ (119 ∷ [], w)
    ∷ (119 ∷ 99 ∷ [], wc)
    ∷ (108 ∷ 105 ∷ 115 ∷ 116 ∷ [], list)
    ∷ (100 ∷ 101 ∷ 98 ∷ 117 ∷ 103 ∷ 102 ∷ 114 ∷ 105 ∷ 101 ∷ 110 ∷ 100 ∷ [], debugfriend)
    ∷ (99 ∷ 97 ∷ 108 ∷ 108 ∷ [], call)
    ∷ (104 ∷ 97 ∷ 110 ∷ 103 ∷ 117 ∷ 112 ∷ [], hangup)
    ∷ (97 ∷ 110 ∷ 115 ∷ 119 ∷ 101 ∷ 114 ∷ [], answer)
    ∷ (97 ∷ 100 ∷ 100 ∷ 102 ∷ 114 ∷ 105 ∷ 101 ∷ 110 ∷ 100 ∷ [], addfriend)
    ∷ (100 ∷ 101 ∷ 108 ∷ 102 ∷ 114 ∷ 105 ∷ 101 ∷ 110 ∷ 100 ∷ [], delfriend)
    ∷ (97 ∷ 112 ∷ 112 ∷ 114 ∷ 111 ∷ 118 ∷ 101 ∷ [], approve)
    ∷ []

-- `/w`. A number that is negative is none of the windows; `/w 1` is the main one, as `/w 0` is.
abbrev pub window_number : Bool → ℕ → Gui → Gui
window_number negative zero gui = focus_main gui
window_number true (suc n) gui = gui
window_number false (suc n) gui = focus_convo_index n gui

abbrev pub window_named : Bytes → Gui → Gui
window_named name gui = let (gui', p) = get_or_create_convo name gui in focus_convo p gui'

unfoldable pub do_w : List Bytes → Gui → Gui × List Effect
unfolding parse_int focus_main focus_convo_index focus_convo get_or_create_convo
do_w [] gui = warn missing_argument gui
do_w (arg ∷ args) gui = elim (parse_int arg) [
  | some (negative, n) ↦ (window_number negative n gui, [])
  | none ↦ (window_named arg gui, [])
]

-- The loop of `/wc` that looks for the window, from index `i` on; -1 is `none`.
abbrev pub last_index : ℕ → ℕ → Option ℕ → List ℕ → Option ℕ
last_index p i found [] = found
last_index p i found (q ∷ qs) = last_index p (i + 1) (if q == p then some i else found) qs

-- The slice trick.
abbrev pub remove_at {ℓ} : {A : Type ℓ} → ℕ → List A → List A
remove_at i xs = take i xs ++ drop (suc i) xs

unfoldable pub do_wc : Gui → Handled
unfolding deactivate_window focus_main
do_wc gui = elim gui.selected_convo [
  | none ↦ done (warn cannot_close_main gui)
  | some p ↦
      let gui' = (deactivate_window p gui).0 in
      elim (last_index p 0 none gui'.conversations) [
        | none ↦ panics
        | some i ↦
            done (focus_main (record gui' { conversations = remove_at i gui'.conversations }), [])
      ]
]

-- The rest of `/call`, in the window of a friend.
abbrev pub call_window : Alpenhorn → ℕ → Gui → Gui × List Effect
call_window alp p gui =
    if length gui.table.active == 5
    then warn_in p too_many_active gui
    else elim (get_elem? gui.store p) [
      | none ↦ (gui, [])
      | some win ↦
          if contains win.convo.peer_username alp.friends
          then (
            modify p mark_unread gui,
            calls win.convo.peer_username ∷ warns_in p queued_call ∷ [],
          )
          else warn_in p not_a_friend gui
    ]

unfoldable pub do_call : Alpenhorn → List Bytes → Gui → Gui × List Effect
unfolding focus_convo get_or_create_convo
do_call alp [] gui = elim gui.selected_convo [
  | none ↦ warn try_call gui
  | some p ↦ call_window alp p (focus_convo p gui)
]
do_call alp (name ∷ args) gui =
    let (gui', p) = get_or_create_convo name gui in call_window alp p (focus_convo p gui')

unfoldable pub do_hangup : Gui → Gui × List Effect
unfolding deactivate_window
do_hangup gui = elim gui.selected_convo [
  | none ↦ warn only_in_convo gui
  | some p ↦
      let (gui', ok) = deactivate_window p gui in
      warn_in p (if ok then hung_up else not_active) gui'
]

abbrev pub answer_call : ℕ → Option KeywheelStart → Gui → Gui × List Effect
answer_call p none gui = warn_in p no_pending_call gui
answer_call p (some wheel) gui =
    let (gui', ok) = activate_window p wheel gui in
    warn_in p (if ok then now_talking else too_many_active) gui'

unfoldable pub do_answer : Gui → Gui × List Effect
unfolding activate_window
do_answer gui = elim gui.selected_convo [
  | none ↦ warn only_in_convo gui
  | some p ↦ elim (get_elem? gui.store p) [
    | none ↦ (gui, [])
    | some win ↦ answer_call p win.pending_call gui
  ]
]

-- `/addfriend`, `/delfriend` and `/approve` leave the windows alone but for what they warn of. The
-- first request of the name is approved.
unfoldable pub do_friend : Alpenhorn → Command → Bytes → Gui → Gui × List Effect
unfolding mark_main
do_friend alp delfriend name gui =
    if contains name alp.friends
    then (mark_main gui, removes_friend name ∷ warns (removed_friend name) ∷ [])
    else warn (cannot_find_friend name) gui
do_friend alp approve name gui =
    if contains name alp.incoming_requests
    then if alp.approve_fails name
      then (mark_main gui, approves name ∷ warns error_approving ∷ [])
      else (mark_main gui, approves name ∷ warns (approved_request name) ∷ [])
    else warn (no_request_from name) gui
do_friend alp other name gui =
    if alp.request_fails name
    then (mark_main gui, requests_friend name ∷ warns error_sending_request ∷ [])
    else (mark_main gui, requests_friend name ∷ warns (queued_request name) ∷ [])

abbrev pub with_name : (Bytes → Gui → Gui × List Effect) → List Bytes → Gui → Handled
with_name f [] gui = done (warn missing_argument gui)
with_name f (name ∷ args) gui = done (f name gui)

unfoldable pub do_register : List Bytes → Gui → Gui × List Effect
unfolding mark_main
do_register [] gui = warn register_usage gui
do_register (token ∷ args) gui = (mark_main gui, warns checking_registration ∷ registers token ∷ [])

-- The key of the friend is sliced: if the keywheel has none for the round, that is a nil pointer.
unfoldable pub do_debugfriend : Alpenhorn → List Bytes → Gui → Handled
unfolding mark_main
do_debugfriend alp [] gui = done (warn missing_argument gui)
do_debugfriend alp (name ∷ args) gui =
    if contains name alp.friends
    then if alp.has_session_key name
      then done (mark_main gui, prints_keywheel name ∷ [])
      else panics
    else done (warn not_a_friend gui)

-- The handlers of the table.
unfoldable pub run_command : Alpenhorn → Command → List Bytes → Gui → Handled
unfolding do_w do_wc do_call do_hangup do_answer do_friend do_register do_debugfriend
run_command alp help args gui = done (mark_main gui, prints_help ∷ [])
run_command alp quit args gui = quits
run_command alp connect args gui = done (gui, connects ∷ [])
run_command alp register args gui = done (do_register args gui)
run_command alp w args gui = done (do_w args gui)
run_command alp wc args gui = do_wc gui
run_command alp list args gui = done (mark_main gui, prints_friends ∷ [])
run_command alp debugfriend args gui = do_debugfriend alp args gui
run_command alp call args gui = done (do_call alp args gui)
run_command alp hangup args gui = done (do_hangup gui)
run_command alp answer args gui = done (do_answer gui)
run_command alp addfriend args gui = with_name (do_friend alp addfriend) args gui
run_command alp delfriend args gui = with_name (do_friend alp delfriend) args gui
run_command alp approve args gui = with_name (do_friend alp approve) args gui

-- The words of a command line; a line of spaces has the empty one.
abbrev pub run_words : Alpenhorn → List Bytes → Gui → Handled
run_words alp [] gui = done (warn (unknown_command []) gui)
run_words alp (name ∷ args) gui = elim (lookup name commands) [
  | none ↦ done (warn (unknown_command name) gui)
  | some command ↦ run_command alp command args gui
]

-- A line that is no command goes to the peer of the selected conversation.
abbrev pub say_line : Bytes → Gui → Gui × List Effect
say_line line gui = elim gui.selected_convo [
  | none ↦ warn try_typing gui
  | some p ↦ (modify p (queue_text_message true line) gui, said_in p line ∷ [])
]

-- `handleLine`. The index 0 of an empty line is out of range.
unfoldable pub handle_line : Alpenhorn → Bytes → Gui → Handled
unfolding fields run_command queue_text_message
handle_line alp [] gui = panics
handle_line alp (c ∷ line) gui =
    if c == 47 then run_words alp (fields line) gui else done (say_line (c ∷ line) gui)

abbrev pub handle_trimmed : Alpenhorn → Bytes → Gui → Handled
handle_trimmed alp [] gui = done (gui, [])
handle_trimmed alp (c ∷ line) gui = handle_line alp (c ∷ line) gui

-- `readLine`, with the text of the input view.
unfoldable pub read_line : Alpenhorn → Bytes → Gui → Handled
unfolding trim_newlines handle_line
read_line alp buffer gui = handle_trimmed alp (trim_newlines buffer) gui
