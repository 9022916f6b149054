-- ===== src/Client/Commands/Reached.antt =====
-- Whatever the user does and the servers tell: `readLine` and the table of commands of
-- cmd/gjallarhorn-client, the Alt keys, calls and rounds.
use mathlib.Core.Path.{subst}
use mathlib.Core.Option.{none-ne-some}
use gjallarhorn.Prelude.{
  ℕ, ◌≡◌, ◌<◌, ◌++◌, length, Bool, true, false, List, [], ◌∷◌, Option, none, some, if◌then◌else◌,
  ◌==◌, arith,
}
use gjallarhorn.Prelude.Bytes.{Bytes, bytes_eq}
use gjallarhorn.Prelude.Maps.{lookup}
use gjallarhorn.Conversation.{KeywheelStart, mark_unread, queue_text_message}
use gjallarhorn.Convo.{DeadDropMessage}
use gjallarhorn.Client.Active.{member, outgoing, replies}
use gjallarhorn.Client.Windows.{
  Gui, Effect, modify, mark_main, warn, focus_convo_index, get_or_create_convo, start_call, said_in,
  warns, removes_friend, removed_friend, cannot_find_friend, approves, error_approving,
  approved_request, no_request_from, requests_friend, error_sending_request, queued_request,
  prints_keywheel, not_a_friend, unknown_command, try_typing,
}
use gjallarhorn.Client.Windows.Sound.{IsSound}
use gjallarhorn.Client.Windows.Steps.{mark_main-IsSound}
use gjallarhorn.Client.Windows.Talking.{
  queue_text_message-IsSound, focus_convo_index-IsSound, start_call-IsSound, mark_unread-IsSound,
}
use gjallarhorn.Client.Commands.{
  Alpenhorn, Handled, contains, done, Command, commands, do_wc, do_friend, with_name, do_register,
  do_debugfriend, run_command, run_words, say_line, handle_line, read_line, handle_trimmed,
}
use gjallarhorn.Client.Commands.Words.{fields, trim_newlines}
use gjallarhorn.Client.Windows.Opening.{get_or_create_convo-Opened}
use gjallarhorn.Client.Commands.Closing.{Keeps, do_wc-closes}
use gjallarhorn.Client.Commands.Kept.{
  either, do_w-IsSound, do_wc-Keeps, do_call-IsSound, do_hangup-IsSound, do_answer-IsSound,
}

module _ (alp : Alpenhorn) (gui : Gui) (s : IsSound gui) where
  request_friend-IsSound :
      (name : Bytes)
      → IsSound
          (if◌then◌else◌ {A = Gui × List Effect}
            (alp.request_fails name)
            (mark_main gui, requests_friend name ∷ warns error_sending_request ∷ [])
            (mark_main gui, requests_friend name ∷ warns (queued_request name) ∷ [])).0
  request_friend-IsSound name =
      either (alp.request_fails name)
        (mark_main gui, requests_friend name ∷ warns error_sending_request ∷ [])
        (mark_main gui, requests_friend name ∷ warns (queued_request name) ∷ [])
        (mark_main-IsSound gui s) (mark_main-IsSound gui s)

  remove_friend-IsSound : (name : Bytes) → IsSound (do_friend alp Command.delfriend name gui).0
  unfolding do_friend
  remove_friend-IsSound name =
      either (contains name alp.friends)
        (mark_main gui, removes_friend name ∷ warns (removed_friend name) ∷ [])
        (warn (cannot_find_friend name) gui) (mark_main-IsSound gui s) (mark_main-IsSound gui s)

  approve_friend-IsSound : (name : Bytes) → IsSound (do_friend alp Command.approve name gui).0
  unfolding do_friend
  approve_friend-IsSound name =
      let answered : Gui × List Effect =
        if alp.approve_fails name
        then (mark_main gui, approves name ∷ warns error_approving ∷ [])
        else (mark_main gui, approves name ∷ warns (approved_request name) ∷ []) in
      let fine = mark_main-IsSound gui s in
      either (contains name alp.incoming_requests) answered (warn (no_request_from name) gui)
        (either (alp.approve_fails name) (mark_main gui, approves name ∷ warns error_approving ∷ [])
          (mark_main gui, approves name ∷ warns (approved_request name) ∷ []) fine fine)
        fine

  with_name-Keeps :
      (f : Bytes → Gui → Gui × List Effect) (args : List Bytes)
      → ((name : Bytes) → IsSound (f name gui).0)
      → Keeps (with_name f args gui)
  with_name-Keeps f [] kept = mark_main-IsSound gui s
  with_name-Keeps f (name ∷ args) kept = kept name

  do_register-IsSound : (args : List Bytes) → IsSound (do_register args gui).0
  unfolding do_register
  do_register-IsSound [] = mark_main-IsSound gui s
  do_register-IsSound (token ∷ args) = mark_main-IsSound gui s

  do_debugfriend-Keeps : (args : List Bytes) → Keeps (do_debugfriend alp args gui)
  unfolding do_debugfriend
  do_debugfriend-Keeps [] = mark_main-IsSound gui s
  do_debugfriend-Keeps (name ∷ args) = at (contains name alp.friends) (alp.has_session_key name)
    where
      at :
          (friend key : Bool)
          → Keeps (
              if friend
              then if key then done (mark_main gui, prints_keywheel name ∷ []) else Handled.panics
              else done (warn not_a_friend gui))
      at true true = mark_main-IsSound gui s
      at true false = tt
      at false key = mark_main-IsSound gui s

  run_command-Keeps : (c : Command) (args : List Bytes) → Keeps (run_command alp c args gui)
  unfolding run_command do_friend
  run_command-Keeps Command.help args = mark_main-IsSound gui s
  run_command-Keeps Command.quit args = tt
  run_command-Keeps Command.connect args = s
  run_command-Keeps Command.register args = do_register-IsSound args
  run_command-Keeps Command.w args = do_w-IsSound alp gui s args
  run_command-Keeps Command.wc args = do_wc-Keeps alp gui s
  run_command-Keeps Command.list args = mark_main-IsSound gui s
  run_command-Keeps Command.debugfriend args = do_debugfriend-Keeps args
  run_command-Keeps Command.call args = do_call-IsSound alp gui s args
  run_command-Keeps Command.hangup args = do_hangup-IsSound alp gui s
  run_command-Keeps Command.answer args = do_answer-IsSound alp gui s
  run_command-Keeps Command.addfriend args =
      with_name-Keeps (do_friend alp Command.addfriend) args request_friend-IsSound
  run_command-Keeps Command.delfriend args =
      with_name-Keeps (do_friend alp Command.delfriend) args remove_friend-IsSound
  run_command-Keeps Command.approve args =
      with_name-Keeps (do_friend alp Command.approve) args approve_friend-IsSound

  run_words-Keeps : (words : List Bytes) → Keeps (run_words alp words gui)
  run_words-Keeps [] = mark_main-IsSound gui s
  run_words-Keeps (name ∷ args) = at (lookup name commands)
    where
      at :
          (o : Option Command)
          → Keeps (elim o [
            | none ↦ done (warn (unknown_command name) gui)
            | some command ↦ run_command alp command args gui
          ])
      at none = mark_main-IsSound gui s
      at (some c) = run_command-Keeps c args

  say_line-IsSound : (line : Bytes) → IsSound (say_line line gui).0
  say_line-IsSound line = at gui.selected_convo
    where
      at :
          (o : Option ℕ)
          → IsSound
              (elim o as (λ x. Gui × List Effect) [
                | none ↦ warn try_typing gui
                | some p ↦ (modify p (queue_text_message true line) gui, said_in p line ∷ [])
              ]).0
      at none = mark_main-IsSound gui s
      at (some p) = queue_text_message-IsSound p line gui s

  handle_trimmed-Keeps : (line : Bytes) → Keeps (handle_trimmed alp line gui)
  unfolding handle_line
  handle_trimmed-Keeps [] = s
  handle_trimmed-Keeps (c ∷ line) = at (c == 47)
    where
      at :
          (b : Bool)
          → Keeps (if b then run_words alp (fields line) gui else done (say_line (c ∷ line) gui))
      at true = run_words-Keeps (fields line)
      at false = say_line-IsSound (c ∷ line)

  read_line-Keeps : (buffer : Bytes) → Keeps (read_line alp buffer gui)
  unfolding read_line
  read_line-Keeps buffer = handle_trimmed-Keeps (trim_newlines buffer)

-- `GuiClient` with the zero values of Go and an empty table.
abbrev pub new_gui : Bytes → Gui
new_gui name = record {
  my_name = name;
  store = [];
  conversations = [];
  selected_convo = none;
  table = record { active = []; pending_rounds = [] };
  main_unread = false;
}

-- The states that a client comes to, by lines, keys, calls and rounds in any order. A call has the
-- parts between which `SendingCall` and `ReceivedCall` hold no lock: the window, the notices on it,
-- and the start of the conversation, with a window that was found at any time before.
pub data Reached : Gui → Type 0 where
  start : (name : Bytes) → Reached (new_gui name)
  enters :
      (alp : Alpenhorn) (buffer : Bytes) (effects : List Effect) {gui gui' : Gui}
      → read_line alp buffer gui ≡ done (gui', effects)
      → Reached gui
      → Reached gui'
  presses : (key : ℕ) {gui : Gui} → Reached gui → Reached (focus_convo_index key gui)
  opens_call :
      (username : Bytes) {gui : Gui} → Reached gui → Reached (get_or_create_convo username gui).0
  rings : (p : ℕ) {gui : Gui} → Reached gui → Reached (modify p mark_unread gui)
  starts_call :
      (p : ℕ) (wheel : KeywheelStart) (effects : List Effect) {gui : Gui}
      → p < length gui.store
      → Reached gui
      → Reached (start_call p wheel gui effects).0
  sends_round :
      (next random : ℕ → DeadDropMessage) (round : ℕ) {gui : Gui}
      → Reached gui
      → Reached (record gui { table = (outgoing next random gui.table round).0 })
  gets_replies :
      (round : ℕ) (rs : List (Option Bytes)) {gui : Gui}
      → Reached gui
      → Reached (record gui { table = (replies gui.table round rs).0 })

-- In every state that a client comes to, by lines, keys, the parts of calls and rounds in any order,
-- the windows of the menu are allocated and have distinct usernames, the selected window is among
-- them, the active conversations are allocated and at most five, and exactly the selected window
-- has the focus.
pub Reached-IsSound : {gui : Gui} → Reached gui → IsSound gui
unfolding outgoing replies
Reached-IsSound (start name) = record {
  listed = record {
    allocated = λ p m. cc;
    distinct = tt;
    talking = λ p m. cc;
    few = omega arith;
    focus = λ p w h. absurd (none-ne-some w h);
  };
  chosen = λ p e. absurd (none-ne-some p e);
}
Reached-IsSound (enters alp buffer effects {gui} {gui'} e r) =
    subst Keeps e (read_line-Keeps alp gui (Reached-IsSound r) buffer)
Reached-IsSound (presses key {gui} r) = focus_convo_index-IsSound key gui (Reached-IsSound r)
Reached-IsSound (opens_call username {gui} r) =
    (get_or_create_convo-Opened username gui (Reached-IsSound r)).sound
Reached-IsSound (rings p {gui} r) = mark_unread-IsSound p gui (Reached-IsSound r)
Reached-IsSound (starts_call p wheel effects {gui} there r) =
    start_call-IsSound p wheel gui effects there (Reached-IsSound r)
Reached-IsSound (sends_round next random round {gui} r) =
    let s = Reached-IsSound r in
    record {
      listed = record {
        allocated = s.listed.allocated;
        distinct = s.listed.distinct;
        talking = s.listed.talking;
        few = s.listed.few;
        focus = s.listed.focus;
      };
      chosen = s.chosen;
    }
Reached-IsSound (gets_replies round rs {gui} r) =
    let s = Reached-IsSound r in
    record {
      listed = record {
        allocated = s.listed.allocated;
        distinct = s.listed.distinct;
        talking = s.listed.talking;
        few = s.listed.few;
        focus = s.listed.focus;
      };
      chosen = s.chosen;
    }

-- In every state that a client comes to, `/wc` with a selected window finds it in the menu, takes it
-- out, leaves the other windows in their order, ends its conversation and goes to the main window.
pub Reached-closes :
    (gui : Gui) (p : ℕ)
    → Reached gui
    → gui.selected_convo ≡ some p
    → (gui' : Gui) × (before : List ℕ) × (after : List ℕ) × (do_wc gui ≡ done (gui', []))
      × (gui.conversations ≡ before ++ (p ∷ after))
      × (gui'.conversations ≡ before ++ after)
      × (member p gui'.conversations ≡ false)
      × (member p gui'.table.active ≡ false)
      × (gui'.selected_convo ≡ none)
Reached-closes gui p r selected = do_wc-closes gui p (Reached-IsSound r) selected
