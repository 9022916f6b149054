-- ===== src/Conversation/Exchange.antt =====
-- One round of a conversation from end to end: what one client's `NextMessage` seals, the other's
-- `Reply` opens (cmd/gjallarhorn-client/conversation.go).
use gjallarhorn.Prelude.{
  ℕ, ◌-◌, ◌≤◌, ◌≡◌, sym, ap, ◌∙◌, false, some, arith, Option-cases, nat_eq, copy, copy_all, inl,
  inr,
}
use gjallarhorn.Prelude.Bytes.{Bytes, zeros, length-zeros, bytes_equal}
use gjallarhorn.Prelude.Maps.{lookup}
use gjallarhorn.Convo.{DeadDropMessage}
use gjallarhorn.Conversation.Message.{ConvoMessage, marshal}
use gjallarhorn.Conversation.Message.RoundTrip.{over_wire, unmarshal-marshal, length-marshal}
use gjallarhorn.Conversation.Keys.{Crypto, IsSecretbox, message_nonce, dead_drop, roll_key}
use gjallarhorn.Conversation.Keys.Wheel.{roll_key_compose, roll_key-none}
use gjallarhorn.Conversation.{
  Conversation, ConvoRound, forget_rounds, read_reply, reply, accept, seal, open_message, responded,
  show_all, roll_and_replace_key, send_round,
}

-- What `NextMessage` sends under the round's key.
send_round_drop :
    (x : Crypto) (a : Conversation) (m : ConvoMessage) (dummy : DeadDropMessage) (key : Bytes)
    (now round : ℕ)
    → roll_key x a.session_key a.session_key_round round ≡ some key
    → let (a', d) = send_round x now round dummy m a in
      (d ≡ record {
        drop_id = dead_drop x round key;
        encrypted_message = copy (zeros 256) (seal x (marshal m) round key a);
      })
      × (a'.session_key ≡ key)
unfolding send_round
send_round_drop x a m dummy key now round hk =
    (rw (hk, send_round, roll_and_replace_key), rw (hk, send_round, roll_and_replace_key))

module _ (x : Crypto) (law : IsSecretbox x) where
  -- The 256-byte array holds the whole box.
  sealed_whole :
      (m : ConvoMessage) (round : ℕ) (key : Bytes) (c : Conversation)
      → copy (zeros 256) (seal x (marshal m) round key c) ≡ seal x (marshal m) round key c
  unfolding seal
  sealed_whole m round key c = copy_all (zeros 256) (seal x (marshal m) round key c) (
      omega (
        arith,
        length-zeros 256,
        law.seal_length (marshal m) (message_nonce x round c.peer_username) key,
        length-marshal m,
      ))

  -- A message sealed for the peer opens at the peer, in the same round under the same key.
  open-seal :
      (a b : Conversation) (m : ConvoMessage) (round : ℕ) (key : Bytes)
      → a.peer_username ≡ b.my_username
      → open_message x (copy (zeros 256) (seal x (marshal m) round key a)) round key b
        ≡ some (marshal m)
  unfolding open_message seal
  open-seal a b m round key names =
      rw (sealed_whole m round key a, ← names)
        (law.open_seal (marshal m) (message_nonce x round a.peer_username) key)

  read_reply_lem :
      (a b : Conversation) (m : ConvoMessage) (round now : ℕ) (key : Bytes) (st : ConvoRound)
      → a.peer_username ≡ b.my_username
      → st.round_key ≡ key
      → (encmsg : Bytes) → encmsg ≡ copy (zeros 256) (seal x (marshal m) round key a)
      → bytes_equal encmsg st.sent_message ≡ false
      → read_reply x now round encmsg st b
        ≡ some (show_all (accept (over_wire m) (record b { last_latency = now - st.created })))
  unfolding read_reply
  read_reply_lem a b m round now key st names hst encmsg eb diff =
      let opened : open_message x encmsg round st.round_key b ≡ some (marshal m) =
        rw (eb, hst) (open-seal a b m round key names) in
      rw (diff, opened, read_reply) (rw (unmarshal-marshal m))

  -- What Alice's client sends in a round, Bob's client reads: if the names match, Bob's client has
  -- the round's key, and the box is not the one that Bob sent, `Reply` accepts Alice's message as
  -- it comes over the wire, and displays what that lets it display.
  pub reply-send_round :
      (a a' b : Conversation) (m : ConvoMessage) (d dummy : DeadDropMessage) (key : Bytes)
      (st : ConvoRound) (sent_at now round : ℕ)
      → roll_key x a.session_key a.session_key_round round ≡ some key
      → send_round x sent_at round dummy m a ≡ (a', d)
      → a.peer_username ≡ b.my_username
      → lookup round b.rounds ≡ some st
      → st.round_key ≡ key
      → bytes_equal d.encrypted_message st.sent_message ≡ false
      → reply x now round d.encrypted_message b
        ≡ responded b (
            some (
              show_all (
                accept (over_wire m) (record b {
                  rounds = forget_rounds round b.rounds;
                  last_latency = now - st.created;
                }))))
  unfolding reply
  reply-send_round a a' b m d dummy key st sent_at now round hk hs names hb hst diff =
      let box = copy (zeros 256) (seal x (marshal m) round key a) in
      let eb : d.encrypted_message ≡ box =
        ap (λ (r : Conversation × DeadDropMessage). r.1.encrypted_message) (sym hs)
        ∙ ap (λ (e : DeadDropMessage). e.encrypted_message)
            (send_round_drop x a m dummy key sent_at round hk).0 in
      let b' = record b { rounds = forget_rounds round b.rounds } in
      rw (hb, reply)
        (ap (responded b')
          (read_reply_lem a b' m round now key st names hst d.encrypted_message eb diff))

-- Two clients whose wheels started from one key, and were rolled to any rounds up to this one,
-- meet in one dead drop and hold one key.
pub send_round_meets :
    (x : Crypto) (a b a' b' : Conversation) (m n : ConvoMessage)
    (d e dummy dummy' : DeadDropMessage) (key : Bytes) (start sent_at sent_at' round : ℕ)
    → roll_key x key start a.session_key_round ≡ some a.session_key
    → roll_key x key start b.session_key_round ≡ some b.session_key
    → a.session_key_round ≤ round
    → b.session_key_round ≤ round
    → send_round x sent_at round dummy m a ≡ (a', d)
    → send_round x sent_at' round dummy' n b ≡ (b', e)
    → (d.drop_id ≡ e.drop_id) × (a'.session_key ≡ b'.session_key)
send_round_meets x a b a' b' m n d e dummy dummy' key start sent_at sent_at' round ka kb la lb sa
      sb =
    let same : roll_key x a.session_key a.session_key_round round
        ≡ roll_key x b.session_key b.session_key_round round =
      roll_key_compose x key a.session_key start a.session_key_round round ka la
      ∙ sym (roll_key_compose x key b.session_key start b.session_key_round round kb lb) in
    elim (Option-cases (roll_key x a.session_key a.session_key_round round)) [
      | inl past ↦ absurd (omega (arith, (roll_key-none x _ _ _).0 past))
      | inr (k, ek) ↦
          let (da, ra) = send_round_drop x a m dummy k sent_at round ek in
          let (db, rb) = send_round_drop x b n dummy' k sent_at' round (sym same ∙ ek) in
          ground (arith, da, ra, db, rb)
    ]
