-- ===== src/Mixnet/Chain.antt =====
-- A batch on its way through the servers of a round: `RunRoundBidirectional` of mixnet/mixnet.go,
-- whose caller is the server before (in `CloseRound`) or the coordinator, against the handlers of
-- the next server. Every server lets the one before it in.
pub mod Worked
pub mod Trace
pub mod Message
pub mod Returns
use gjallarhorn.Prelude.{
  ℕ, zero, suc, ◌-◌, ◌<◌, ◌&&◌, List, [], ◌∷◌, Option, none, some, if◌then◌else◌, ltb, length, take,
  drop,
}
use gjallarhorn.Prelude.Bytes.{Bytes}
use gjallarhorn.Mixnet.Settings.{PublicServerConfig}
use gjallarhorn.Mixnet.Replies.{Box}
use gjallarhorn.Mixnet.Rounds.{
  Outcome, responds, fails, panics, waits, Service, RoundState, bad_metadata,
}
use gjallarhorn.Mixnet.Rounds.Onions.{begin_onions, receive_all, and_then}
use gjallarhorn.Mixnet.Rounds.Closing.{World, Shuffler, Closed, close_open}
use gjallarhorn.Mixnet.Fetching.{Span, span_size, fetch_onions}
use gjallarhorn.Mixnet.Adding.{stream_add_onions}

-- The streams of `addOnions`, one for each span, in turn. Each announces the number of onions, which
-- the server reads as 32 bits.
unfoldable pub add_streams :
    (ℕ → ℕ → List Span) → List Bytes → RoundState → List Span → Outcome RoundState
unfolding begin_onions receive_all stream_add_onions
add_streams spans onions st [] = responds st
add_streams spans onions st (span ∷ rest) =
    if ltb (length onions) 4294967296
    then and_then (begin_onions st (length onions)) (λ begun.
      let slice = take span.count (drop span.start onions) in
      let (st', out) =
        receive_all (length onions) begun (stream_add_onions spans span.start slice) in
      and_then out (λ u. add_streams spans onions st' rest))
    else fails bad_metadata

-- The second half: `GetOnions` waits until the replies are sealed.
abbrev pub fetch_closed : (ℕ → ℕ → List Span) → ℕ → Closed → Option (List Bytes)
fetch_closed spans n (st, responds r) =
    if st.bidirectional && st.encrypt_done then fetch_onions spans n st.replies else none
fetch_closed spans n (st, fails e) = none
fetch_closed spans n (st, panics) = none
fetch_closed spans n (st, waits) = none

abbrev pub close_added :
    World → (ℕ → ℕ → List Span) → Service → Bytes → ℕ → ℕ → Outcome RoundState → Option (List Bytes)
close_added w spans service name round n (responds st) =
    fetch_closed spans n (close_open w service name round st)
close_added w spans service name round n (fails e) = none
close_added w spans service name round n panics = none
close_added w spans service name round n waits = none

-- `RunRoundBidirectional` against one server; what never comes, or comes as an error, is `none`.
unfoldable pub run_round_bidirectional :
    World
    → (ℕ → ℕ → List Span)
    → Service
    → Bytes
    → ℕ
    → RoundState
    → List Bytes
    → Option (List Bytes)
unfolding add_streams close_open fetch_onions span_size
run_round_bidirectional w spans service name round st onions =
    close_added w spans service name round (length onions)
      (add_streams spans onions st (spans (length onions) (span_size (length onions))))

-- A server with its round, its random keys and its shuffles.
pub record Stage : Type 0 where
  pub service : Service
  pub state : RoundState
  pub fresh : ℕ → Bytes
  pub shuffler : ℕ → Shuffler

-- The servers that can be dialled.
abbrev pub Network : Type 0
Network = PublicServerConfig → Option Stage

-- A run through at most so many servers, from the one that `conf` names on: each closes its round by
-- a run from the next one on.
unfoldable pub run_chain :
    ℕ
    → Box
    → (ℕ → ℕ → List Span)
    → Network
    → PublicServerConfig
    → Bytes
    → ℕ
    → List Bytes
    → Option (List Bytes)
unfolding run_round_bidirectional
run_chain zero x spans net conf name round onions = none
run_chain (suc m) x spans net conf name round onions = elim (net conf) [
  | none ↦ none
  | some stage ↦
      run_round_bidirectional
        (record {
          box = x;
          fresh = stage.fresh;
          shuffler = stage.shuffler;
          run_bidirectional = run_chain m x spans net;
          run_unidirectional = λ next service r batch. none;
        })
        spans stage.service name round stage.state onions
]
