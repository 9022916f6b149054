-- ===== src/TestHarness/Examples.antt =====
-- The harness at concrete inputs.
use gjallarhorn.Prelude.{◌≡◌, refl, true, [], ◌∷◌, some, arith, replicate}
use gjallarhorn.Prelude.Bytes.{zeros}
use gjallarhorn.Convo.{DeadDropMessage}
use gjallarhorn.Conversation.{Conversation, send_round, init}
use gjallarhorn.Conversation.Message.{marshal}
use gjallarhorn.Conversation.Keys.{roll_key, roll_from}
use gjallarhorn.Conversation.Examples.{plain, plain-IsSecretbox, first_message}
use gjallarhorn.TestHarness.{HarnessConvoState, new_harness_convo_state, outgoing, replies}
use gjallarhorn.TestHarness.Wire.{Follows, outgoing-send_round, replies-outgoing_harness}

-- The two ends of a conversation whose seed is for round 3.
abbrev alice_state : HarnessConvoState
alice_state = record {
  peer_username = 98 ∷ [];
  my_username = 97 ∷ [];
  session_key = replicate 32 5;
  session_key_round = 3;
}

abbrev bob_state : HarnessConvoState
bob_state = record {
  peer_username = 97 ∷ [];
  my_username = 98 ∷ [];
  session_key = replicate 32 5;
  session_key_round = 3;
}

state_run : new_harness_convo_state (replicate 32 5) 3 (97 ∷ []) (98 ∷ []) ≡ alice_state
unfolding new_harness_convo_state zeros
state_run = refl

-- The client's conversation, which has its key still for round 3.
abbrev alice_convo : Conversation
alice_convo = record (init (98 ∷ []) (97 ∷ [])) {
  session_key = replicate 32 5;
  session_key_round = 3;
}

abbrev blank_drop : DeadDropMessage
blank_drop = record { drop_id = zeros 16; encrypted_message = zeros 256 }

alice-Follows : Follows plain alice_convo alice_state
unfolding init roll_key roll_from
alice-Follows = record { peer = refl; me = refl; rolled = refl }

outgoing-send_round_example :
    (outgoing plain blank_drop 5
        (record { state = some alice_state; out_queue = marshal first_message ∷ [] })
      ≡ (
        record { state = some alice_state; out_queue = [] },
        (send_round plain 1 5 blank_drop first_message alice_convo).1 ∷ [],
      ))
    × Follows plain (send_round plain 1 5 blank_drop first_message alice_convo).0 alice_state
outgoing-send_round_example =
    outgoing-send_round plain 1 5 blank_drop blank_drop first_message alice_convo alice_state []
      alice-Follows (omega arith)

replies-outgoing_harness_example :
    (m : DeadDropMessage) × (outgoing plain blank_drop 5
        (record { state = some alice_state; out_queue = (104 ∷ 105 ∷ []) ∷ [] })
      ≡ (record { state = some alice_state; out_queue = [] }, m ∷ []))
    × (replies plain true 5
          (record { state = some bob_state; out_queue = [] })
          (m.encrypted_message ∷ [])
        ≡ record { from_peer = 97 ∷ []; body = 104 ∷ 105 ∷ []; round = 5 } ∷ [])
replies-outgoing_harness_example =
    replies-outgoing_harness plain plain-IsSecretbox 5 bob_state blank_drop alice_state
      (104 ∷ 105 ∷ []) [] [] [] [] refl refl refl (omega arith) (omega arith) (omega arith) tt
