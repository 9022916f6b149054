-- ===== src/Conversation.antt =====
-- One conversation of the client: `Conversation` of cmd/gjallarhorn-client/conversation.go. The
-- mutex makes each locked part one step; a method returns the new state. Usernames and message
-- texts are byte strings. Drawing the screen and sending desktop notes are left out; the texts
-- that `Reply` displays are a result.
pub mod Message
pub mod Keys
pub mod Receiving
pub mod Sending
pub mod Delivery
pub mod Progress
pub mod Secrecy
pub mod Exchange
pub mod Examples
use gjallarhorn.Prelude.{
  ℕ, zero, suc, ◌+◌, ◌-◌, ◌%◌, ◌≡◌, Bool, true, false, ◌&&◌, not, List, [], ◌∷◌, ◌++◌, Option, none,
  some, ltb, leb, ◌==◌, if◌then◌else◌, length, get_elem?, copy, nat_eq,
}
use gjallarhorn.Prelude.Bytes.{Bytes, zeros, u32, bytes_equal}
use gjallarhorn.Prelude.Maps.{Map, lookup, delete, insert, retain}
use gjallarhorn.Convo.{DeadDropMessage}
use Message.{ConvoMessage, marshal, unmarshal, size_user_text}
use Keys.{Crypto, roll_key, message_nonce, dead_drop}

pub record SeqMsg : Type 0 where
  pub relative_seq : ℕ
  pub msg : Bytes

pub record ConvoRound : Type 0 where
  pub sent_message : Bytes
  pub round_key : Bytes
  pub created : ℕ

-- `last_out` is -1, here `none`, until the first message of an activated conversation.
pub record Conversation : Type 0 where
  pub peer_username : Bytes
  pub my_username : Bytes
  pub rounds : Map ℕ ConvoRound
  pub out_queue : List SeqMsg
  pub last_out : Option ℕ
  pub in_queue : Map ℕ Bytes
  pub relative_seq : ℕ
  pub seq_base : ℕ
  pub ack : ℕ
  pub session_key : Bytes
  pub session_key_round : ℕ
  pub last_peer_responding : Bool
  pub last_latency : ℕ
  pub last_round : ℕ
  pub unread : Bool
  pub focused : Bool

-- `&Conversation{peerUsername, myUsername}` with zero values, then `Init`.
unfoldable pub init : Bytes → Bytes → Conversation
init peer me = record {
  peer_username = peer;
  my_username = me;
  rounds = [];
  out_queue = [];
  last_out = some 0;
  in_queue = [];
  relative_seq = 0;
  seq_base = 0;
  ack = 0;
  session_key = [];
  session_key_round = 0;
  last_peer_responding = false;
  last_latency = 0;
  last_round = 0;
  unread = false;
  focused = false;
}

-- `keywheelStart`, and what `activateConvo` of cmd/gjallarhorn-client/gui.go does to a conversation.
pub record KeywheelStart : Type 0 where
  pub session_key : Bytes
  pub convo_round : ℕ

unfoldable pub activate : KeywheelStart → Conversation → Conversation
activate wheel c = record c {
  session_key = wheel.session_key;
  session_key_round = wheel.convo_round;
  last_peer_responding = false;
  last_latency = 0;
  last_out = none;
}

-- What `Printf` and `PrintfSync` do to the conversation.
unfoldable pub mark_unread : Conversation → Conversation
mark_unread c = if c.focused then c else record c { unread = true }

-- The locked part of `QueueTextMessage`. `Printf` after it returns early without a view.
unfoldable pub queue_text_message : Bool → Bytes → Conversation → Conversation
unfolding mark_unread
queue_text_message has_view msg c =
    let c' = record c {
      out_queue = c.out_queue ++ (record { relative_seq = c.relative_seq; msg = msg } ∷ []);
      relative_seq = u32 (c.relative_seq + 1);
    } in
    if has_view then mark_unread c' else c'

-- The next index into the queue of `n` messages, and whether the pass starts again at the lowest.
unfoldable pub next_out : Option ℕ → ℕ → ℕ × Bool
next_out none n = (0, true)
next_out (some i) n = if ltb (i + 1) n then (i + 1, false) else (0, true)

-- Cover traffic, unless a message is queued.
abbrev pub cover : Conversation → ConvoMessage
cover c = record { seq = 0; ack = c.ack; lowest = false; user_text = zeros size_user_text }

unfoldable pub round_base : ℕ → Conversation → ℕ
round_base round c = if c.seq_base == 0 then u32 (round + 1) else c.seq_base

abbrev pub send_at :
    Conversation → ℕ → ℕ × Bool → Option SeqMsg → Option (Conversation × ConvoMessage)
send_at c base (i, lowest) none = none
send_at c base (i, lowest) (some out) = some (
  record c { seq_base = base; last_out = some i },
  record { seq = u32 (out.relative_seq + base); ack = c.ack; lowest = lowest; user_text = out.msg },
)

-- The choice from the queue; `none` is the panic of an index out of range.
unfoldable pub pick_from : List SeqMsg → ℕ → Conversation → Option (Conversation × ConvoMessage)
unfolding next_out round_base
pick_from [] round c = some (c, cover c)
pick_from (o ∷ os) round c =
    let choice = next_out c.last_out (length (o ∷ os)) in
    send_at c (round_base round c) choice (get_elem? (o ∷ os) choice.0)

-- The second locked part of `NextMessage`.
unfoldable pub pick_outgoing : ℕ → Conversation → Option (Conversation × ConvoMessage)
unfolding pick_from
pick_outgoing round c = pick_from c.out_queue round c

-- `rollAndReplaceKey`.
unfoldable pub roll_and_replace_key : Crypto → ℕ → Conversation → Option (Conversation × Bytes)
roll_and_replace_key x target c = elim (roll_key x c.session_key c.session_key_round target) [
  | none ↦ none
  | some new ↦ some (record c { session_key = new; session_key_round = target }, new)
]

unfoldable pub seal : Crypto → Bytes → ℕ → Bytes → Conversation → Bytes
seal x message round round_key c =
    x.secretbox_seal message (message_nonce x round c.peer_username) round_key

unfoldable pub open_message : Crypto → Bytes → ℕ → Bytes → Conversation → Option Bytes
open_message x ctxt round round_key c =
    x.secretbox_open ctxt (message_nonce x round c.my_username) round_key

-- The part of `NextMessage` from `Marshal` on. `dummy` is what `rand.Read` would give.
unfoldable pub send_round :
    Crypto → ℕ → ℕ → DeadDropMessage → ConvoMessage → Conversation → Conversation × DeadDropMessage
unfolding roll_and_replace_key seal
send_round x now round dummy msg c = elim (roll_and_replace_key x round c) [
  | none ↦ (c, dummy)
  | some (c', key) ↦
      let sealed = copy (zeros 256) (seal x (marshal msg) round key c') in
      (
        record c' {
          rounds =
              insert round (record { sent_message = sealed; round_key = key; created = now })
                c'.rounds;
        },
        record { drop_id = dead_drop x round key; encrypted_message = sealed },
      )
]

unfoldable pub next_message :
    Crypto → ℕ → ℕ → DeadDropMessage → Conversation → Option (Conversation × DeadDropMessage)
unfolding pick_outgoing send_round
next_message x now round dummy c = elim (pick_outgoing round (record c { last_round = round })) [
  | none ↦ none
  | some (c', msg) ↦ some (send_round x now round dummy msg c')
]

-- `if c.lastOut > 0 { c.lastOut -= 1 }`.
unfoldable pub step_back : Option ℕ → Option ℕ
step_back none = none
step_back (some zero) = some 0
step_back (some (suc i)) = some i

-- The loop that drops what the peer has acknowledged.
unfoldable pub drop_acked : ℕ → ℕ → List SeqMsg → Option ℕ → List SeqMsg × Option ℕ
unfolding step_back
drop_acked base ack [] last = ([], last)
drop_acked base ack (o ∷ os) last =
    let acked = ltb 0 base && leb (u32 (o.relative_seq + base)) ack in
    let (kept, last') = drop_acked base ack os (if acked then step_back last else last) in
    (if acked then kept else o ∷ kept, last')

pub record Inbox : Type 0 where
  pub queue : Map ℕ Bytes
  pub acked : ℕ
  pub shown : List Bytes

-- The loop that displays the consecutive chain from sequence number `i` on. Each round takes one
-- binding out of the queue, so more rounds than it has bindings are enough.
unfoldable pub deliver : ℕ → ℕ → Map ℕ Bytes → ℕ → Inbox
deliver zero i q ack = record { queue = q; acked = ack; shown = [] }
deliver (suc f) i q ack = elim (lookup i q) [
  | none ↦ record { queue = q; acked = ack; shown = [] }
  | some text ↦
      let rest = deliver f (u32 (i + 1)) (delete i q) i in
      record { queue = rest.queue; acked = rest.acked; shown = text ∷ rest.shown }
]

-- A message above the acknowledged number is queued. `msg.Seq > c.ack` makes `msg.Seq - 1` exact.
unfoldable pub receive : ConvoMessage → Map ℕ Bytes → ℕ → Inbox
unfolding deliver
receive m q ack =
    let q' = insert m.seq m.user_text q in
    let ack' = if m.lowest then m.seq - 1 else ack in
    if ltb ack m.seq
    then deliver (suc (length q')) (u32 (ack' + 1)) q' ack'
    else record { queue = q; acked = ack; shown = [] }

-- The last locked part of `Reply`: the conversation after a peer's message, and what is displayed.
unfoldable pub accept : ConvoMessage → Conversation → Conversation × List Bytes
unfolding drop_acked receive
accept m c =
    let (kept, last) = drop_acked c.seq_base m.ack c.out_queue c.last_out in
    let inbox = receive m c.in_queue c.ack in
    (
      record c { out_queue = kept; last_out = last; in_queue = inbox.queue; ack = inbox.acked },
      inbox.shown,
    )

unfoldable pub solo : Conversation → Bool
solo c = bytes_equal c.peer_username c.my_username

-- The first locked part of `Reply`: the round and the old ones are forgotten. `round-10` is of
-- `uint32`.
unfoldable pub forget_rounds : ℕ → Map ℕ ConvoRound → Map ℕ ConvoRound
forget_rounds round m = retain (λ r. not (ltb r (u32 (round + 4294967296 - 10)))) (delete round m)

-- `PrintfSync` for each message displayed.
abbrev show_all : Conversation × List Bytes → Conversation × List Bytes
show_all (c, []) = (c, [])
show_all (c, t ∷ ts) = (mark_unread c, t ∷ ts)

-- What `Reply` does with the message of a round that it knows. The result says whether the peer
-- responded.
unfoldable pub read_reply :
    Crypto → ℕ → ℕ → Bytes → ConvoRound → Conversation → Option (Conversation × List Bytes)
unfolding accept mark_unread solo open_message
read_reply x now round encmsg st c =
    if bytes_equal encmsg st.sent_message && not (solo c)
    then none
    else elim (open_message x encmsg round st.round_key c) [
      | none ↦ none
      | some msgdata ↦ elim (unmarshal msgdata) [
        | none ↦ none
        | some m ↦ some (show_all (accept m (record c { last_latency = now - st.created })))
      ]
    ]

abbrev responded : Conversation → Option (Conversation × List Bytes) → Conversation × List Bytes
responded c none = (record c { last_peer_responding = false }, [])
responded c (some (c', texts)) = (record c' { last_peer_responding = true }, texts)

unfoldable pub reply : Crypto → ℕ → ℕ → Bytes → Conversation → Conversation × List Bytes
unfolding read_reply forget_rounds
reply x now round encmsg c =
    let c' = record c { rounds = forget_rounds round c.rounds } in
    elim (lookup round c.rounds) [
      | none ↦ responded c' none
      | some st ↦ responded c' (read_reply x now round encmsg st c')
    ]

pub record Status : Type 0 where
  pub peer_responding : Bool
  pub round : ℕ
  pub latency : ℕ
  pub is_unread : Bool
  pub unacked : ℕ

-- The latency is in nanoseconds, not in seconds of a float.
unfoldable pub status : Conversation → Status
status c = record {
  peer_responding = c.last_peer_responding;
  round = c.last_round;
  latency = c.last_latency;
  is_unread = c.unread;
  unacked = length c.out_queue;
}
