-- ===== src/TestHarness.antt =====
-- The conversations of the end-to-end tests: `harnessConvoState` of internal/testharness/convostate.go
-- and `testClientConvoHandler` of internal/testharness/convohandler.go. The diagnostics are left out.
pub mod Wire
mod Examples
use gjallarhorn.Prelude.{
  ℕ, zero, suc, ◌-◌, ◌≡◌, Bool, true, false, List, [], ◌∷◌, Option, none, some, if◌then◌else◌, ltb,
  ◌==◌, copy,
}
use gjallarhorn.Prelude.Bytes.{Bytes, zeros}
use gjallarhorn.Convo.{DeadDropMessage}
use gjallarhorn.Conversation.Keys.{Crypto, roll_from, message_nonce, dead_drop}

-- The seed is never replaced.
pub record HarnessConvoState : Type 0 where
  pub peer_username : Bytes
  pub my_username : Bytes
  pub session_key : Bytes
  pub session_key_round : ℕ

unfoldable pub new_harness_convo_state : Bytes → ℕ → Bytes → Bytes → HarnessConvoState
new_harness_convo_state seed_key seed_round me peer = record {
  peer_username = peer;
  my_username = me;
  session_key = copy (zeros 32) seed_key;
  session_key_round = seed_round;
}

module _ (x : Crypto) where
  -- The loop from the seed's round on; `none` is the nil key of a round that is past.
  unfoldable pub roll_key_to : ℕ → HarnessConvoState → Option Bytes
  unfolding roll_from
  roll_key_to target c =
      if ltb target c.session_key_round
      then none
      else some (roll_from x (target - c.session_key_round) c.session_key_round c.session_key)

  unfoldable pub seal : Bytes → ℕ → HarnessConvoState → Option Bytes
  unfolding roll_key_to message_nonce
  seal plaintext round c = elim (roll_key_to round c) [
    | none ↦ none
    | some key ↦ some (x.secretbox_seal plaintext (message_nonce x round c.peer_username) key)
  ]

  unfoldable pub open_message : Bytes → ℕ → HarnessConvoState → Option Bytes
  unfolding roll_key_to message_nonce
  open_message ciphertext round c = elim (roll_key_to round c) [
    | none ↦ none
    | some key ↦ x.secretbox_open ciphertext (message_nonce x round c.my_username) key
  ]

  unfoldable pub dead_drop_of : ℕ → HarnessConvoState → Option Bytes
  unfolding roll_key_to dead_drop
  dead_drop_of round c = elim (roll_key_to round c) [
    | none ↦ none
    | some key ↦ some (dead_drop x round key)
  ]

-- What a client's handler keeps: the conversation, if there is one, and the bodies to send.
pub record Handler : Type 0 where
  pub state : Option HarnessConvoState
  pub out_queue : List Bytes

-- `IncomingMessage`.
pub record IncomingMessage : Type 0 where
  pub from_peer : Bytes
  pub body : Bytes
  pub round : ℕ

-- The queue's first body, which is not nil, or a body of zeros.
abbrev pub next_body : List Bytes → Bytes × List Bytes
next_body [] = (zeros 240, [])
next_body (body ∷ queue) = (body, queue)

abbrev pub message_for : Crypto → DeadDropMessage → ℕ → HarnessConvoState → Bytes → DeadDropMessage
message_for x cover round st body = elim (seal x (copy (zeros 240) body) round st) [
  | none ↦ cover
  | some ctxt ↦ elim (dead_drop_of x round st) [
    | none ↦ cover
    | some drop ↦ record { drop_id = drop; encrypted_message = copy (zeros 256) ctxt }
  ]
]

-- `Outgoing`; `cover` is what `coverDeadDrop` makes. One message goes out in every round.
unfoldable pub outgoing : Crypto → DeadDropMessage → ℕ → Handler → Handler × List DeadDropMessage
unfolding seal dead_drop_of
outgoing x cover round h = elim h.state [
  | none ↦ (h, cover ∷ [])
  | some st ↦
      let (body, queue) = next_body h.out_queue in
      (record h { out_queue = queue }, message_for x cover round st body ∷ [])
]

-- Up to the first zero byte.
unfoldable pub trim_zero : Bytes → Bytes
trim_zero [] = []
trim_zero (b ∷ bs) = let rest = trim_zero bs in if b == 0 then [] else b ∷ rest

-- The loop of `Replies`: the first message that opens goes to the channel, which `room` says is not
-- full.
unfoldable pub open_first :
    Crypto → Bool → ℕ → HarnessConvoState → List Bytes → List IncomingMessage
unfolding open_message trim_zero
open_first x room round st [] = []
open_first x room round st (ct ∷ messages) =
    let rest = open_first x room round st messages in
    elim (open_message x ct round st) [
      | none ↦ rest
      | some pt ↦
          if room
          then record { from_peer = st.peer_username; body = trim_zero pt; round = round } ∷ []
          else []
    ]

unfoldable pub replies : Crypto → Bool → ℕ → Handler → List Bytes → List IncomingMessage
unfolding open_first
replies x room round h messages = elim h.state [
  | none ↦ []
  | some st ↦ open_first x room round st messages
]
