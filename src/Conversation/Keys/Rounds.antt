-- ===== src/Conversation/Keys/Rounds.antt =====
-- The round that the two ends of a call agree on.
use gjallarhorn.Prelude.{ℕ, ◌+◌, ◌≤◌, ◌<◌, ◌≡◌, arith}
use gjallarhorn.Conversation.Keys.{
  std_round_syncer, outgoing_call_convo_round, incoming_call_convo_round,
}

-- The contract in the comment of `roundSyncer`, for the client's increment of 10000: a receiver
-- whose latest round is up to 10000 rounds after the sender's finds the sender's round from the
-- intent. The receiver's round has to fit 32 bits.
pub incoming-outgoing :
    (r x : ℕ)
    → x ≤ 10000
    → r + x < 4294967296
    → let (round, intent) = outgoing_call_convo_round std_round_syncer r in
      incoming_call_convo_round std_round_syncer (r + x) intent ≡ round
unfolding outgoing_call_convo_round incoming_call_convo_round
incoming-outgoing r x hx hr = ground arith
