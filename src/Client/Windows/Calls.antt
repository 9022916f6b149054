-- ===== src/Client/Windows/Calls.antt =====
-- The two ends of a call: `SendingCall` and `ReceivedCall` of cmd/gjallarhorn-client/alpenhorn.go.
use mathlib.Core.Path.{subst}
use gjallarhorn.Prelude.{
  ℕ, ◌+◌, ◌≤◌, ◌<◌, ◌≡◌, refl, sym, ap, ◌∙◌, Bool, true, false, List, [], ◌∷◌, none, some, some_inj,
  if◌then◌else◌, ltb, ◌==◌, arith, length, get_elem?, get_elem?-some, Option-cases, inl, inr,
}
use gjallarhorn.Prelude.Bytes.{Bytes}
use gjallarhorn.Conversation.{KeywheelStart, activate, mark_unread}
use gjallarhorn.Conversation.Keys.{
  std_round_syncer, outgoing_call_convo_round, incoming_call_convo_round,
}
use gjallarhorn.Conversation.Keys.Rounds.{incoming-outgoing}
use gjallarhorn.Client.Active.{member, activate_convo}
use gjallarhorn.Client.Windows.{
  Window, Gui, Effect, modify, update_at, get_or_create_convo, activate_window, start_call,
  sending_call, received_call, warns_in, calling, updates_intent, call_received, notifies,
  find_convo,
}
use gjallarhorn.Client.Windows.Sound.{mapped, get_elem?-update_at, IsSound}
use gjallarhorn.Client.Windows.Opening.{get_or_create_convo-Opened}

get_elem?-updated :
    (f : Window → Window) (p : ℕ) (store : List Window) {w : Window}
    → get_elem? store p ≡ some w
    → get_elem? (update_at p f store) p ≡ some (f w)
get_elem?-updated f p store {w} h =
    let self : (p == p) ≡ true = ground arith in
    get_elem?-update_at p p f store
    ∙ ap (λ b. if b then mapped f (get_elem? store p) else get_elem? store p) self
    ∙ ap (mapped f) h

-- A window that talks: its conversation is active, with the key and the round of the call.
pub record Talks (gui : Gui) (username key : Bytes) (round : ℕ) : Type 0 where
  pub place : ℕ
  pub window : Window
  pub there : get_elem? gui.store place ≡ some window
  pub named : window.convo.peer_username ≡ username
  pub is_active : member place gui.table.active ≡ true
  pub same_key : window.convo.session_key ≡ key
  pub same_round : window.convo.session_key_round ≡ round
  pub none_held : window.pending_call ≡ none

start_call-Talks :
    (p : ℕ) (wheel : KeywheelStart) (gui : Gui) (effects : List Effect) (username : Bytes)
    (w : Window)
    → length gui.table.active < 5
    → get_elem? gui.store p ≡ some w
    → w.convo.peer_username ≡ username
    → Talks (start_call p wheel gui effects).0 username wheel.session_key wheel.convo_round
unfolding activate_window activate_convo activate
start_call-Talks p wheel gui effects username w room there named =
    let yes_room : ltb (length gui.table.active) 5 ≡ true = ground arith in
    let activated : Window → Window = λ (v : Window). record v { convo = activate wheel v.convo } in
    let held : Window → Window = λ (v : Window). record v { pending_call = none } in
    rw (activate_convo, yes_room)
      (record {
        place = p;
        window = held (activated w);
        there =
            get_elem?-updated held p (update_at p activated gui.store)
              (get_elem?-updated activated p gui.store there);
        named = named;
        is_active = listed (member p gui.table.active) refl;
        same_key = refl;
        same_round = refl;
        none_held = refl;
      })
  where
    listed :
        (b : Bool)
        → member p gui.table.active ≡ b
        → member p (if b then gui.table.active else p ∷ gui.table.active) ≡ true
    listed true e = e
    listed false e = ground arith

-- The window of the name, once it is marked.
opened_window :
    (username : Bytes) (gui : Gui)
    → IsSound gui
    → (w : Window) × (get_elem?
          (modify
            (get_or_create_convo username gui).1
            mark_unread
            (get_or_create_convo username gui).0).store
          (get_or_create_convo username gui).1
        ≡ some w)
      × (w.convo.peer_username ≡ username)
unfolding mark_unread
opened_window username gui s =
    let o = get_or_create_convo-Opened username gui s in
    let p = (get_or_create_convo username gui).1 in
    let gui' = (get_or_create_convo username gui).0 in
    let (w, e) = get_elem?-some gui'.store p (o.sound.listed.allocated p o.there) in
    let marked : Window → Window = λ (v : Window). record v { convo = mark_unread v.convo } in
    let kept : (mark_unread w.convo).peer_username ≡ w.convo.peer_username = ground arith in
    (
      marked w,
      get_elem?-updated marked p gui'.store e,
      kept ∙ some_inj (ap (mapped (λ (v : Window). v.convo.peer_username)) (sym e) ∙ o.named),
    )

same_table : (username : Bytes) (gui : Gui) → (get_or_create_convo username gui).0.table ≡ gui.table
unfolding get_or_create_convo
same_table username gui = elim (Option-cases (find_convo username gui.store gui.conversations)) [
  | inl e ↦ rw (get_or_create_convo, e)
  | inr (p, e) ↦ rw (get_or_create_convo, e)
]

-- A caller's and a receiver's window, for a round that the client knows of.
module _ (username key : Bytes) (gui : Gui) (s : IsSound gui)
    (room : length gui.table.active < 5) where
  abbrev window_of : ℕ
  window_of = (get_or_create_convo username gui).1

  abbrev marked_gui : Gui
  marked_gui = modify window_of mark_unread (get_or_create_convo username gui).0

  still_room : length marked_gui.table.active < 5
  still_room = subst (λ t. length t.active < 5) (sym (same_table username gui)) room

  sending_call-Talks :
      (round : ℕ)
      → Talks
          (sending_call (some round) username key gui).0
          username
          key
          (outgoing_call_convo_round std_round_syncer round).0
  unfolding sending_call
  sending_call-Talks round =
      let (w, e, named) = opened_window username gui s in
      start_call-Talks window_of
        (record {
          session_key = key;
          convo_round = (outgoing_call_convo_round std_round_syncer round).0;
        })
        marked_gui
        (warns_in window_of calling
          ∷ updates_intent (outgoing_call_convo_round std_round_syncer round).1
          ∷ [])
        username w still_room e named

  received_call-Talks :
      (round intent : ℕ)
      → Talks
          (received_call (some round) username key intent gui).0
          username
          key
          (incoming_call_convo_round std_round_syncer round intent)
  unfolding received_call
  received_call-Talks round intent =
      let (w, e, named) = opened_window username gui s in
      start_call-Talks window_of
        (record {
          session_key = key;
          convo_round = incoming_call_convo_round std_round_syncer round intent;
        })
        marked_gui (warns_in window_of call_received ∷ notifies ∷ []) username w still_room e named

-- A call between two clients that have room for it, of whom the receiver's latest round is at most
-- 10000 rounds after the caller's, when nothing comes between the parts of the call on either side:
-- with the intent that the caller hands over, both have a window
-- that bears the other's name, is active, and starts its keywheel with the key of the call at one
-- round, which is not after the caller's.
pub calls-agree :
    (caller receiver key : Bytes) (out in_ : Gui) (round behind : ℕ)
    → IsSound out
    → IsSound in_
    → length out.table.active < 5
    → length in_.table.active < 5
    → behind ≤ 10000
    → round + behind < 4294967296
    → let (start, intent) = outgoing_call_convo_round std_round_syncer round in
      Talks (sending_call (some round) receiver key out).0 receiver key start
      × Talks (received_call (some (round + behind)) caller key intent in_).0 caller key start
      × (start ≤ round)
calls-agree caller receiver key out in_ round behind s t room room' near fits =
    let (start, intent) = outgoing_call_convo_round std_round_syncer round in
    (
      sending_call-Talks receiver key out s room round,
      subst
          (λ r. Talks (received_call (some (round + behind)) caller key intent in_).0 caller key r)
          (incoming-outgoing round behind near fits)
          (received_call-Talks caller key in_ t room' (round + behind) intent),
      not_after round,
    )
  where
    not_after : (r : ℕ) → (outgoing_call_convo_round std_round_syncer r).0 ≤ r
    not_after r = unfold outgoing_call_convo_round in omega arith
