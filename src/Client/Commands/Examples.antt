-- ===== src/Client/Commands/Examples.antt =====
-- Lines of a user, and the theorems on the client's windows at concrete inputs.
use gjallarhorn.Prelude.{
  ℕ, ◌≤◌, ◌≡◌, ◌↔◌, refl, Bool, true, false, List, [], ◌∷◌, ◌++◌, Option, none, some, arith,
  replicate,
}
use gjallarhorn.Prelude.Bytes.{bytes_equal, bytes_eq}
use gjallarhorn.Prelude.Maps.{lookup}
use gjallarhorn.Client.Windows.{
  Gui, sending_call, received_call, start_call, warns, cannot_close_main, mark_main, find_convo,
  focus_convo, focus_convo_index, focus_main, get_or_create_convo, activate_window,
  deactivate_window,
}
use gjallarhorn.Conversation.Keys.{outgoing_call_convo_round}
use gjallarhorn.Conversation.{KeywheelStart, init}
use gjallarhorn.Client.Active.{member, activate_convo, deactivate_convo}
use gjallarhorn.Client.Windows.Sound.{IsSound}
use gjallarhorn.Client.Windows.Calls.{Talks, calls-agree}
use gjallarhorn.Client.Commands.{
  Alpenhorn, done, handle_line, read_line, run_command, do_wc, last_index,
}
use gjallarhorn.Client.Commands.Words.{
  fields, fields_from, split, split_from, trim_newlines, parse_int, parse_decimal,
}
use gjallarhorn.Client.Commands.Completion.{tab_complete, completes, argument_choices}
use gjallarhorn.Client.Commands.Completion.Unique.{Only, tab_complete-Only}
use gjallarhorn.Client.Commands.Reached.{
  new_gui, Reached, start, enters, presses, opens_call, starts_call, Reached-IsSound,
  Reached-closes,
}

abbrev friends : Alpenhorn
friends = record {
  friends = (98 ∷ []) ∷ (98 ∷ 99 ∷ []) ∷ [];
  incoming_requests = [];
  request_fails = λ n. false;
  approve_fails = λ n. true;
  has_session_key = λ n. true;
}

-- "w  b" in two words.
fields_run : fields (119 ∷ 32 ∷ 32 ∷ 98 ∷ []) ≡ (119 ∷ []) ∷ (98 ∷ []) ∷ []
unfolding fields fields_from
fields_run = refl

-- "-12" and "1x".
parse_int_run :
    Path
      (List (Option (Bool × ℕ)))
      (parse_int (45 ∷ 49 ∷ 50 ∷ []) ∷ parse_int (49 ∷ 120 ∷ []) ∷ [])
      (some (true, 12) ∷ none ∷ [])
unfolding parse_int parse_decimal
parse_int_run = refl

-- "/wc" in the main window.
read_line_run :
    read_line friends (47 ∷ 119 ∷ 99 ∷ 10 ∷ []) (new_gui [])
    ≡ done (new_gui [], warns cannot_close_main ∷ [])
unfolding read_line handle_line run_command do_wc fields fields_from trim_newlines lookup
    bytes_equal mark_main
read_line_run = refl

-- A call by "b" opens its window, and the user looks at it.
abbrev looking : Gui
looking = focus_convo_index 1 (get_or_create_convo (98 ∷ []) (new_gui (97 ∷ []))).0

looking-Reached : Reached looking
looking-Reached = presses 1 (opens_call (98 ∷ []) (start (97 ∷ [])))

Reached-closes_example :
    (gui : Gui) × (before : List ℕ) × (after : List ℕ) × (do_wc looking ≡ done (gui, []))
    × (looking.conversations ≡ before ++ (0 ∷ after))
    × (gui.conversations ≡ before ++ after)
    × (member 0 gui.conversations ≡ false)
    × (member 0 gui.table.active ≡ false)
    × (gui.selected_convo ≡ none)
unfolding focus_convo_index get_or_create_convo find_convo focus_convo
Reached-closes_example = Reached-closes looking 0 looking-Reached refl

-- The user closes the window before the call makes its conversation active.
abbrev wheel : KeywheelStart
wheel = record { session_key = replicate 32 7; convo_round = 0 }

abbrev closed : Gui
closed = record (new_gui (97 ∷ [])) {
  store =
      record { convo = record (init (98 ∷ []) (97 ∷ [])) { focused = false }; pending_call = none }
      ∷ [];
}

abbrev late : Gui
late = (start_call 0 wheel closed []).0

late_run : (late.conversations ≡ []) × (late.table.active ≡ 0 ∷ [])
unfolding activate_window activate_convo
late_run = (refl, refl)

late-Reached : Reached late
unfolding focus_convo_index get_or_create_convo find_convo focus_convo read_line handle_line
    run_command do_wc fields fields_from trim_newlines lookup bytes_equal deactivate_window
    deactivate_convo focus_main last_index init
late-Reached =
    starts_call 0 wheel [] (omega arith)
      (enters friends (47 ∷ 119 ∷ 99 ∷ 10 ∷ []) [] refl looking-Reached)

Reached-IsSound_example : IsSound late
Reached-IsSound_example = Reached-IsSound late-Reached

-- "/call bc".
tab_complete-Only_example :
    (tab_complete friends (new_gui []) (47 ∷ 99 ∷ 97 ∷ 108 ∷ 108 ∷ 32 ∷ 98 ∷ 99 ∷ [])
      ≡ completes [])
    ↔ Only (98 ∷ 99 ∷ []) ((98 ∷ []) ∷ (98 ∷ 99 ∷ []) ∷ []) []
unfolding trim_newlines split split_from lookup bytes_equal argument_choices
tab_complete-Only_example =
    tab_complete-Only friends (new_gui []) (47 ∷ 99 ∷ 97 ∷ 108 ∷ 108 ∷ 32 ∷ 98 ∷ 99 ∷ [])
      (99 ∷ 97 ∷ 108 ∷ 108 ∷ 32 ∷ 98 ∷ 99 ∷ []) [] refl

calls-agree_example :
    Talks
      (sending_call (some 12000) (98 ∷ []) (replicate 32 7) (new_gui (97 ∷ []))).0
      (98 ∷ [])
      (replicate 32 7)
      10000
    × Talks
        (received_call (some 12001) (97 ∷ []) (replicate 32 7) 1 (new_gui (98 ∷ []))).0
        (97 ∷ [])
        (replicate 32 7)
        10000
    × (10000 ≤ 12000)
unfolding outgoing_call_convo_round
calls-agree_example =
    calls-agree (97 ∷ []) (98 ∷ []) (replicate 32 7) (new_gui (97 ∷ [])) (new_gui (98 ∷ [])) 12000 1
      (Reached-IsSound (start (97 ∷ []))) (Reached-IsSound (start (98 ∷ []))) (omega arith)
      (omega arith) (omega arith) (omega arith)
