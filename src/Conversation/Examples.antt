-- ===== src/Conversation/Examples.antt =====
-- Runs of the conversation, and its theorems at concrete inputs.
use mathlib.Core.List.{Memᴰ}
use gjallarhorn.Prelude.{
  ℕ, ap, ◌+◌, ◌-◌, ◌≡◌, refl, true, List, [], ◌∷◌, ◌++◌, map, Option, none, some, arith, length,
  take, replicate, length-append, nat_eq,
}
use gjallarhorn.Prelude.Bytes.{Bytes, u32, zeros, put_uint32, bytes_equal}
use gjallarhorn.Prelude.Maps.{Map, lookup, insert}
use gjallarhorn.Convo.{DeadDropMessage}
use gjallarhorn.Conversation.Message.{ConvoMessage, marshal, unmarshal, pad_text}
use gjallarhorn.Conversation.Message.RoundTrip.{over_wire, unmarshal-marshal}
use gjallarhorn.Conversation.Keys.{Crypto, IsSecretbox, roll_key, roll_from}
use gjallarhorn.Conversation.Progress.{receive_complete, receive_lowest}
use gjallarhorn.Conversation.Secrecy.{reply-forgets, reply-forgets_all}
use gjallarhorn.Conversation.Exchange.{reply-send_round, send_round_meets}
use gjallarhorn.Conversation.{
  Conversation, ConvoRound, SeqMsg, init, queue_text_message, pick_outgoing, receive, reply,
  send_round, forget_rounds, accept, responded, show_all, seal,
}
use gjallarhorn.Conversation.Delivery.{
  Link, Reach, start, here, next, alice_types, alice_sends, bob_hears, hears,
}
use gjallarhorn.Conversation.Delivery.Order.{delivered_in_order}

abbrev pub alice : Bytes
alice = 97 ∷ []

abbrev pub bob : Bytes
bob = 98 ∷ []

abbrev pub hi : Bytes
hi = 104 ∷ 105 ∷ []

abbrev typed_link : Link
typed_link =
    let s = start alice bob in
    record s { alice = queue_text_message true hi s.alice; typed = s.typed ++ (hi ∷ []) }

abbrev pub first_message : ConvoMessage
first_message = record { seq = 8; ack = 0; lowest = true; user_text = hi }

abbrev sending_alice : Conversation
sending_alice = record (typed_link.alice) { seq_base = 8; last_out = some 0 }

abbrev sent_link : Link
sent_link = record (typed_link) {
  alice = sending_alice;
  from_alice = first_message ∷ typed_link.from_alice;
}

picks_first : pick_outgoing 7 typed_link.alice ≡ some (sending_alice, first_message)
unfolding pick_outgoing queue_text_message start init
picks_first = refl

heard_run : Reach (start alice bob) (hears (over_wire first_message) sent_link)
unfolding start init queue_text_message
heard_run =
    next
      (next (next here (alice_types (start alice bob) true hi (omega arith)))
        (alice_sends typed_link 7 sending_alice first_message picks_first (omega arith)))
      (bob_hears sent_link first_message (over_wire first_message) (Memᴰ.head refl)
        (unmarshal-marshal first_message))

delivered_in_order_example :
    (rest : List Bytes) × (map pad_text (hears (over_wire first_message) sent_link).typed
      ≡ (hears (over_wire first_message) sent_link).shown ++ rest)
delivered_in_order_example =
    delivered_in_order alice bob (hears (over_wire first_message) sent_link) heard_run

shown_run : (hears (over_wire first_message) sent_link).shown ≡ pad_text hi ∷ []
unfolding start init accept receive pad_text queue_text_message lookup insert
shown_run = refl

unmarshal-marshal_example : unmarshal (marshal first_message) ≡ some (over_wire first_message)
unmarshal-marshal_example = unmarshal-marshal first_message

-- A stand-in for the cryptography: the box is the message with 16 bytes behind it.
abbrev pub tag : Bytes
tag = replicate 16 7

take-append : (m : Bytes) → take (length m) (m ++ tag) ≡ m
take-append [] = refl
take-append (b ∷ m) = ap (◌∷◌ b) (take-append m)

abbrev pub plain_open : Bytes → Option Bytes
plain_open c = some (take (length c - 16) c)

plain_open-append : (m : Bytes) → plain_open (m ++ tag) ≡ some m
plain_open-append m =
    let e : length (m ++ tag) - 16 ≡ length m = omega (arith, length-append m tag) in
    rw e (ap some (take-append m))

abbrev pub plain : Crypto
plain = record {
  sha512_256 = λ b. 1 ∷ b;
  sha256 = λ b. b;
  hmac_sha256 = λ key m. key ++ m;
  secretbox_seal = λ m nonce key. m ++ tag;
  secretbox_open = λ c nonce key. plain_open c;
}

pub plain-IsSecretbox : IsSecretbox plain
plain-IsSecretbox = record {
  seal_length = λ m nonce key. length-append m tag;
  open_seal = λ m nonce key. plain_open-append m;
}

abbrev pub key0 : Bytes
key0 = 5 ∷ []

abbrev pub rolled : Bytes
rolled = roll_from plain 2 3 key0

abbrev queue_of_one : List SeqMsg
queue_of_one = record { relative_seq = 0; msg = hi } ∷ []

-- Message 9 waits in the queue for message 8.
abbrev waiting : Map ℕ Bytes
waiting = (9, 33 ∷ []) ∷ []

receive_complete_example :
    lookup
      (u32 ((receive first_message waiting 0).acked + 1))
      (receive first_message waiting 0).queue
    ≡ none
receive_complete_example = receive_complete first_message waiting 0 (omega arith)

receive_run : (receive first_message waiting 0).shown ≡ hi ∷ (33 ∷ []) ∷ []
unfolding receive insert lookup
receive_run = refl

receive_lowest_example : (more : List Bytes) × ((receive first_message waiting 0).shown ≡ hi ∷ more)
receive_lowest_example = receive_lowest first_message waiting 0 refl (omega arith) (omega arith)

abbrev pub no_drop : DeadDropMessage
no_drop = record { drop_id = []; encrypted_message = [] }

abbrev pub round_at : ℕ → ConvoRound
round_at t = record { sent_message = []; round_key = rolled; created = t }

-- Bob has the rounds 3, 5 and 20 in flight.
abbrev bob_in_flight : Conversation
bob_in_flight = record (init alice bob) {
  rounds = (3, round_at 1) ∷ (5, round_at 2) ∷ (20, round_at 3) ∷ [];
}

reply-forgets_example : lookup 3 (reply plain 9 20 [] bob_in_flight).0.rounds ≡ none
reply-forgets_example = reply-forgets plain 9 20 3 [] bob_in_flight (omega arith) (omega arith)

reply-forgets_all_example : lookup 5 (reply plain 9 3 [] bob_in_flight).0.rounds ≡ none
reply-forgets_all_example =
    reply-forgets_all plain 9 3 5 [] bob_in_flight (omega arith) (omega arith)

abbrev pub alice_at_three : Conversation
alice_at_three = record (init bob alice) { session_key = key0; session_key_round = 3 }

abbrev sent_round : Conversation × DeadDropMessage
sent_round = send_round plain 1 5 no_drop first_message alice_at_three

reply-send_round_example :
    reply plain 9 5 sent_round.1.encrypted_message bob_in_flight
    ≡ responded bob_in_flight (
        some (
          show_all (
            accept (over_wire first_message) (record bob_in_flight {
              rounds = forget_rounds 5 bob_in_flight.rounds;
              last_latency = 7;
            }))))
unfolding roll_key init lookup send_round bytes_equal marshal put_uint32 pad_text zeros seal
reply-send_round_example =
    reply-send_round plain plain-IsSecretbox alice_at_three sent_round.0 bob_in_flight first_message
      sent_round.1 no_drop rolled (round_at 2) 1 9 5 refl refl refl refl refl refl

abbrev bob_at_five : Conversation
bob_at_five = record (init alice bob) { session_key = rolled; session_key_round = 5 }

abbrev bob_sent : Conversation × DeadDropMessage
bob_sent = send_round plain 1 9 no_drop first_message bob_at_five

abbrev alice_sent : Conversation × DeadDropMessage
alice_sent = send_round plain 1 9 no_drop first_message alice_at_three

send_round_meets_example :
    (alice_sent.1.drop_id ≡ bob_sent.1.drop_id)
    × (alice_sent.0.session_key ≡ bob_sent.0.session_key)
unfolding roll_key roll_from
send_round_meets_example =
    send_round_meets plain alice_at_three bob_at_five alice_sent.0 bob_sent.0 first_message
      first_message alice_sent.1 bob_sent.1 no_drop no_drop key0 3 1 1 9 refl refl (omega arith)
      (omega arith) refl refl
