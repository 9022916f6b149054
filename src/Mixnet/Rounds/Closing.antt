-- ===== src/Mixnet/Rounds/Closing.antt =====
-- `CloseRound`, `GetOnions` and `DeleteRound` of mixnet/mixnet.go. `CloseRound` waits for the
-- workers, which here do their jobs at that point, and for the noise; the replies are sealed at once.
pub mod Answers
pub mod Saves
pub mod Signature
pub mod Again
use gjallarhorn.Prelude.{
  ℕ, suc, ◌+◌, ◌≡◌, Bool, true, false, List, [], ◌∷◌, ◌++◌, Option, none, some, if◌then◌else◌, ltb,
  length, get_elem?, take,
}
use gjallarhorn.Prelude.Bytes.{Bytes, bytes_eq}
use gjallarhorn.Prelude.Maps.{lookup, delete}
use gjallarhorn.Mixnet.Settings.{RoundSettings, PublicServerConfig}
use gjallarhorn.Mixnet.Filter.{filter_incoming}
use gjallarhorn.Mixnet.Replies.{
  Box, reply_msg_size, encrypt_replies, Slice, refused, onions, get_slice,
}
use gjallarhorn.Mixnet.Rounds.{
  RpcError, Outcome, responds, fails, panics, waits, Handled, replied, result, failed, Service,
  RoundState, Server, service_round_eq, get_round, Peer, auth_prev, round_not_found,
  run_round_failed, service_failed, not_bidirectional, invalid_range,
}
use gjallarhorn.Mixnet.Rounds.Onions.{put_round, run_jobs}

-- A shuffler of `shuffle.New`, for one batch.
pub record Shuffler : Type 0 where
  pub shuffle : List Bytes → List Bytes
  pub unshuffle : List Bytes → List Bytes

-- Its contract for batches of `n` messages: `unshuffle` takes to each place what stands where
-- `shuffle` has put that place's message.
pub record IsShuffler (s : Shuffler) (n : ℕ) : Type 0 where
  pub place : ℕ → ℕ
  pub shuffle_at :
      (xs : List Bytes)
      → length xs ≡ n
      → (i : ℕ) → get_elem? (s.shuffle xs) (place i) ≡ get_elem? xs i
  pub shuffle_length : (xs : List Bytes) → length xs ≡ n → length (s.shuffle xs) ≡ n
  pub unshuffle_at :
      (ys : List Bytes)
      → length ys ≡ n
      → (i : ℕ) → get_elem? (s.unshuffle ys) i ≡ get_elem? ys (place i)
  pub unshuffle_length : (ys : List Bytes) → length ys ≡ n → length (s.unshuffle ys) ≡ n

-- What `CloseRound` uses from outside: boxes, random keys, a shuffler for a batch of a size, and
-- the next server's rounds.
pub record World : Type 0 where
  pub box : Box
  pub fresh : ℕ → Bytes
  pub shuffler : ℕ → Shuffler
  pub run_bidirectional : PublicServerConfig → Bytes → ℕ → List Bytes → Option (List Bytes)
  pub run_unidirectional : PublicServerConfig → Bytes → ℕ → List Bytes → Option Bytes

-- A handler's end on the round itself.
abbrev pub Closed : Type 0
Closed = RoundState × Outcome Bytes

-- `encryptReplies`, with the size of the service's replies.
abbrev pub seal_replies : World → Service → ℕ → RoundState → List Bytes → Closed
seal_replies w service round st replies =
    elim (encrypt_replies w.box round
      (reply_msg_size (length st.chain) st.my_pos service.size_reply_message) w.fresh replies
      st.shared_keys st.incoming_index) [
        | none ↦ (st, panics)
        | some rs ↦ (record st { replies = rs; encrypt_done = true }, responds [])
      ]

abbrev pub fail_round : RpcError → RoundState → Closed
fail_round e st = (record st { err = some e }, fails e)

-- A server that is not the last one. Too few replies cannot be cut to the ones that are not noise.
abbrev pub mix_bidirectional :
    World → Service → Bytes → ℕ → RoundState → PublicServerConfig → ℕ → List Bytes → Closed
mix_bidirectional w service name round st next num_non_noise outgoing =
    let s = w.shuffler (length outgoing) in
    elim (w.run_bidirectional next name round (s.shuffle outgoing)) [
      | none ↦ fail_round run_round_failed st
      | some replies ↦
          if ltb (length (s.unshuffle replies)) num_non_noise
          then (st, panics)
          else seal_replies w service round st (take num_non_noise (s.unshuffle replies))
    ]

abbrev pub mix_unidirectional :
    World → Bytes → ℕ → RoundState → PublicServerConfig → List Bytes → Closed
mix_unidirectional w name round st next outgoing =
    let s = w.shuffler (length outgoing) in
    elim (w.run_unidirectional next name round (s.shuffle outgoing)) [
      | none ↦ fail_round run_round_failed st
      | some r ↦ (record st { close_result = r }, responds r)
    ]

-- The result of `HandleMessages` is asserted to be of the type that the service's mode wants.
abbrev pub handled : World → Service → ℕ → RoundState → Bool → Handled → Closed
handled w service round st mode failed = fail_round service_failed st
handled w service round st true (replied replies) = seal_replies w service round st replies
handled w service round st true (result r) = (st, panics)
handled w service round st false (replied replies) = (st, panics)
handled w service round st false (result r) = (record st { close_result = r }, responds r)

-- The last server. Its settings are there, since the noise is.
abbrev pub mix_last : World → Service → ℕ → RoundState → List Bytes → Closed
mix_last w service round st outgoing = elim st.settings [
  | none ↦ (st, panics)
  | some settings ↦
      handled w service round st st.bidirectional (service.handle_messages settings outgoing)
]

abbrev pub mix : World → Service → Bytes → ℕ → RoundState → ℕ → List Bytes → Closed
mix w service name round st num_non_noise outgoing =
    if ltb (suc st.my_pos) (length st.chain)
    then elim (get_elem? st.chain (suc st.my_pos)) [
      | none ↦ (st, panics)
      | some next ↦
          if st.bidirectional
          then mix_bidirectional w service name round st next num_non_noise outgoing
          else mix_unidirectional w name round st next outgoing
    ]
    else mix_last w service round st outgoing

-- The round once its messages are filtered: nothing is kept of the messages and the noise.
abbrev pub filtered : RoundState → RoundState
filtered st = record st {
  closed = true;
  incoming = [];
  incoming_index = (filter_incoming st.incoming).1;
  noise = some [];
}

-- From the workers' end on. Without settings there is no noise to wait for.
unfoldable pub mix_round : World → Service → Bytes → ℕ → RoundState → Closed
unfolding filter_incoming encrypt_replies reply_msg_size
mix_round w service name round st = elim st.noise [
  | none ↦ (record st { closed = true }, waits)
  | some noise ↦
      let valid = (filter_incoming st.incoming).0 in
      mix w service name round (filtered st) (length valid) (valid ++ noise)
]

-- The `select` on `closed`, and the wait for the workers.
unfoldable pub close_open : World → Service → Bytes → ℕ → RoundState → Closed
unfolding run_jobs mix_round
close_open w service name round st =
    if st.closed
    then (st, elim st.err [ none ↦ responds st.close_result | some e ↦ fails e ])
    else let st' = record st { accepting_onions = false } in
      elim (run_jobs w.box round st' st'.jobs) [
        | none ↦ (st', panics)
        | some st'' ↦ mix_round w service name round st''
      ]

-- `CloseRound`. The service of a round is known.
unfoldable pub close_round : World → Server → Peer → Bytes → ℕ → Server × Outcome Bytes
unfolding get_round auth_prev close_open
close_round w srv peer name round = elim (get_round srv name round) [
  | none ↦ (srv, fails round_not_found)
  | some st ↦ elim (auth_prev srv peer st) [
    | fails e ↦ (srv, fails e)
    | panics ↦ (srv, panics)
    | waits ↦ (srv, waits)
    | responds u ↦ elim (lookup name srv.services) [
      | none ↦ (srv, panics)
      | some service ↦
          let (st', out) = close_open w service name round st in (put_round srv name round st', out)
    ]
  ]
]

abbrev pub send_slice : Slice → Outcome (List Bytes)
send_slice refused = fails invalid_range
send_slice Slice.panics = panics
send_slice (onions rs) = responds rs

-- `GetOnions`: the pieces that the stream sends, put together.
unfoldable pub get_onions : Server → Peer → Bytes → ℕ → ℕ → ℕ → Outcome (List Bytes)
unfolding get_round auth_prev get_slice
get_onions srv peer name round offset count = elim (get_round srv name round) [
  | none ↦ fails round_not_found
  | some st ↦
      if st.bidirectional
      then elim (auth_prev srv peer st) [
        | fails e ↦ fails e
        | panics ↦ panics
        | waits ↦ waits
        | responds u ↦
            if st.encrypt_done then send_slice (get_slice offset count st.replies) else waits
      ]
      else fails not_bidirectional
]

unfoldable pub delete_round : Server → Peer → Bytes → ℕ → Server × Outcome (Unit {0})
unfolding get_round auth_prev
delete_round srv peer name round = elim (get_round srv name round) [
  | none ↦ (srv, fails round_not_found)
  | some st ↦ elim (auth_prev srv peer st) [
    | fails e ↦ (srv, fails e)
    | panics ↦ (srv, panics)
    | waits ↦ (srv, waits)
    | responds u ↦ (record srv { rounds = delete (name, round) srv.rounds }, responds tt)
  ]
]
