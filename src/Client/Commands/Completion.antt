-- ===== src/Client/Commands/Completion.antt =====
-- The Tab key: `tabComplete` and `completePrefix` of cmd/gjallarhorn-client/commands.go. The choices
-- are sorted for printing only, and a map's keys come in the table's order.
pub mod Unique
use gjallarhorn.Prelude.{
  ℕ, zero, suc, ◌+◌, Bool, true, false, not, List, [], ◌∷◌, ◌++◌, map, Option, none, some,
  if◌then◌else◌, ◌==◌, length, get_elem?, take, drop,
}
use gjallarhorn.Prelude.Bytes.{Bytes, bytes_equal, bytes_eq}
use gjallarhorn.Prelude.Maps.{lookup}
use gjallarhorn.Client.Windows.{Window, Gui}
use gjallarhorn.Client.Commands.{Alpenhorn, Command, commands, contains}
use gjallarhorn.Client.Commands.Words.{split, trim_newlines}

-- `strings.HasPrefix`.
abbrev pub has_prefix : Bytes → Bytes → Bool
has_prefix s prefix = bytes_equal (take (length prefix) s) prefix

unfoldable pub complete_prefix : Bytes → List Bytes → List Bytes
complete_prefix prefix [] = []
complete_prefix prefix (choice ∷ choices) =
    let rest = complete_prefix prefix choices in
    if has_prefix choice prefix then choice ∷ rest else rest

-- The loop that removes duplicates, with what it has seen.
unfoldable pub remove_dupes : List Bytes → List Bytes → List Bytes
remove_dupes seen [] = []
remove_dupes seen (choice ∷ choices) =
    let old = contains choice seen in
    let rest = remove_dupes (if old then seen else choice ∷ seen) choices in
    if old then rest else choice ∷ rest

abbrev pub usernames : List Window → List ℕ → List Bytes
usernames store [] = []
usernames store (p ∷ ps) = elim (get_elem? store p) [
  | none ↦ usernames store ps
  | some win ↦ win.convo.peer_username ∷ usernames store ps
]

-- The three switches on the command.
unfoldable pub argument_choices : Alpenhorn → Gui → Option Command → List Bytes
argument_choices alp gui none = []
argument_choices alp gui (some Command.w) = usernames gui.store gui.conversations ++ alp.friends
argument_choices alp gui (some Command.call) = alp.friends
argument_choices alp gui (some Command.delfriend) = alp.friends
argument_choices alp gui (some Command.debugfriend) = alp.friends
argument_choices alp gui (some Command.addfriend) = alp.friends
argument_choices alp gui (some Command.approve) = alp.incoming_requests
argument_choices alp gui (some other) = []

pub data Completed : Type 0 where
  nothing : Completed
  shows : List Bytes → Completed
  completes : Bytes → Completed

-- What is done with the matches of a prefix; `match[len(prefix):]` is what is missing.
abbrev pub finish : Bytes → List Bytes → Completed
finish prefix [] = nothing
finish prefix (match_ ∷ []) = completes (drop (length prefix) match_)
finish prefix (a ∷ b ∷ more) = shows (a ∷ b ∷ more)

abbrev pub last_of : Bytes → List Bytes → Bytes
last_of word [] = word
last_of word (next ∷ words) = last_of next words

abbrev pub command_names : List Bytes
command_names = map (λ (c : Bytes × Command). c.0) commands

abbrev pub complete_words : Alpenhorn → Gui → List Bytes → Completed
complete_words alp gui [] = nothing
complete_words alp gui (word ∷ []) = finish word (complete_prefix word command_names)
complete_words alp gui (name ∷ arg ∷ args) =
    let choices = argument_choices alp gui (lookup name commands) in
    if length choices == 0
    then nothing
    else finish (last_of arg args) (complete_prefix (last_of arg args) (remove_dupes [] choices))

abbrev pub complete_line : Alpenhorn → Gui → Bytes → Completed
complete_line alp gui [] = nothing
complete_line alp gui (c ∷ line) = if c == 47 then complete_words alp gui (split line) else nothing

unfoldable pub tab_complete : Alpenhorn → Gui → Bytes → Completed
unfolding complete_prefix remove_dupes argument_choices split trim_newlines
tab_complete alp gui buffer = complete_line alp gui (trim_newlines buffer)
