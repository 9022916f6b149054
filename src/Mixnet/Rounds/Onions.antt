-- ===== src/Mixnet/Rounds/Onions.antt =====
-- `AddOnions`, `parseMetadata` and the decryption workers of mixnet/mixnet.go. A stream is the list
-- of requests that `Recv` gives before the end of the stream.
pub mod Positions
use gjallarhorn.Prelude.{
  ℕ, zero, suc, ◌+◌, ◌-◌, ◌*◌, Bool, true, false, ◌&&◌, List, [], ◌∷◌, ◌++◌, Option, none, some,
  if◌then◌else◌, ◌==◌, ltb, leb, length, get_elem?, take, drop, replicate, set, string_eq,
}
use Prim.Native.String.{String}
use gjallarhorn.Prelude.Bytes.{Bytes, bytes_equal, bytes_eq, u32, zeros}
use gjallarhorn.Prelude.Maps.{Map, lookup, insert}
use gjallarhorn.Mixnet.Replies.{Box, forward_nonce}
use gjallarhorn.Mixnet.Rounds.{
  RpcError, Outcome, responds, fails, panics, waits, OnionsRequest, RoundState, Server,
  service_round_eq, get_round, Peer, auth_prev, bad_metadata, round_not_found, other_num_incoming,
  overflowing_onions,
}

-- `strconv.ParseUint(s, 10, 32)` on the digits after the first ones.
unfoldable pub parse_digits : ℕ → Bytes → Option ℕ
parse_digits acc [] = some acc
parse_digits acc (c ∷ cs) =
    if leb 48 c && (leb c 57 && ltb (acc * 10 + (c - 48)) 4294967296)
    then parse_digits (acc * 10 + (c - 48)) cs
    else none

unfoldable pub parse_uint32 : Bytes → Option ℕ
unfolding parse_digits
parse_uint32 [] = none
parse_uint32 (c ∷ cs) = parse_digits 0 (c ∷ cs)

pub record StreamMetadata : Type 0 where
  pub service : Bytes
  pub round : ℕ
  pub num_incoming : ℕ

-- A key of the metadata has a list of values, of which the first is read.
abbrev pub first_value : String → Map String (List Bytes) → Outcome Bytes
first_value key md = elim (lookup key md) [
  | none ↦ fails bad_metadata
  | some vs ↦ elim vs [ [] ↦ panics | v ∷ more ↦ responds v ]
]

abbrev pub parse_value : Outcome Bytes → Outcome ℕ
parse_value (responds v) = elim (parse_uint32 v) [ none ↦ fails bad_metadata | some n ↦ responds n ]
parse_value (fails e) = fails e
parse_value panics = panics
parse_value waits = waits

abbrev pub and_then {ℓ κ} : {A : Type ℓ} {B : Type κ} → Outcome A → (A → Outcome B) → Outcome B
and_then (responds a) f = f a
and_then (fails e) f = fails e
and_then panics f = panics
and_then waits f = waits

unfoldable pub parse_metadata : Map String (List Bytes) → Outcome StreamMetadata
unfolding parse_uint32
parse_metadata md = and_then (first_value "service" md) (λ service.
    and_then (parse_value (first_value "round" md)) (λ round.
      and_then (parse_value (first_value "numincoming" md))
        (λ num. responds (record { service = service; round = round; num_incoming = num }))))

-- The first stream that announces a number fixes it, and with it the room for the onions.
unfoldable pub begin_onions : RoundState → ℕ → Outcome RoundState
begin_onions st num =
    if st.num_incoming == 0
    then responds (record st {
      accepting_onions = true;
      num_incoming = num;
      incoming = replicate num none;
      shared_keys = if st.bidirectional then replicate num (zeros 32) else st.shared_keys;
    })
    else if st.num_incoming == num
    then responds st
    else fails other_num_incoming

-- One request of a stream: the sum is of `uint32`. A round that is closing drops the onions.
unfoldable pub receive_onions : ℕ → RoundState → OnionsRequest → Outcome RoundState
receive_onions num st req =
    if ltb num (u32 (req.offset + u32 (length req.onions)))
    then fails overflowing_onions
    else responds (if st.accepting_onions then record st { jobs = st.jobs ++ (req ∷ []) } else st)

-- A stream that fails has handed over the requests before the bad one.
unfoldable pub receive_all : ℕ → RoundState → List OnionsRequest → RoundState × Outcome (Unit {0})
unfolding receive_onions
receive_all num st [] = (st, responds tt)
receive_all num st (req ∷ reqs) = elim (receive_onions num st req) [
  | responds st' ↦ receive_all num st' reqs
  | fails e ↦ (st, fails e)
  | panics ↦ (st, panics)
  | waits ↦ (st, waits)
]

abbrev pub put_round : Server → Bytes → ℕ → RoundState → Server
put_round srv name round st = record srv { rounds = insert (name, round) st srv.rounds }

abbrev pub add_begun :
    Server → StreamMetadata → List OnionsRequest → Outcome RoundState → Server × Outcome (Unit {0})
add_begun srv md reqs (responds st) =
    let (st', out) = receive_all md.num_incoming st reqs in
    (put_round srv md.service md.round st', out)
add_begun srv md reqs (fails e) = (srv, fails e)
add_begun srv md reqs panics = (srv, panics)
add_begun srv md reqs waits = (srv, waits)

abbrev pub add_parsed :
    Server → Peer → List OnionsRequest → Outcome StreamMetadata → Server × Outcome (Unit {0})
add_parsed srv peer reqs (responds md) = elim (get_round srv md.service md.round) [
  | none ↦ (srv, fails round_not_found)
  | some st ↦
      add_begun srv md reqs
        (and_then (auth_prev srv peer st) (λ u. begin_onions st md.num_incoming))
]
add_parsed srv peer reqs (fails e) = (srv, fails e)
add_parsed srv peer reqs panics = (srv, panics)
add_parsed srv peer reqs waits = (srv, waits)

-- `AddOnions`, when no other handler runs between its requests.
unfoldable pub add_onions :
    Server → Peer → Map String (List Bytes) → List OnionsRequest → Server × Outcome (Unit {0})
unfolding parse_metadata get_round auth_prev begin_onions receive_all
add_onions srv peer md reqs = add_parsed srv peer reqs (parse_metadata md)

-- The worker's write to `incoming[p]`, and to `sharedKeys[p]` in bidirectional mode.
unfoldable pub decrypt_onion : Box → ℕ → RoundState → ℕ → Bytes → Option RoundState
unfolding forward_nonce
decrypt_onion x round st p onion =
    let shared = x.precompute (take 32 onion) st.onion_private_key in
    if length onion == st.incoming_onion_size
    then if ltb p (length st.incoming)
      then if st.bidirectional
        then if ltb p (length st.shared_keys)
          then some (record st {
            incoming =
                set st.incoming p (x.open_after (drop 32 onion) (forward_nonce round) shared);
            shared_keys = set st.shared_keys p shared;
          })
          else none
        else some (record st {
          incoming = set st.incoming p (
              x.open_box (drop 32 onion) (forward_nonce round) (take 32 onion)
                st.onion_private_key);
        })
      else none
    else some st

-- The loop over the onions of a job; `none` is the panic of an index out of range.
unfoldable pub decrypt_from : Box → ℕ → RoundState → ℕ → List Bytes → Option RoundState
unfolding decrypt_onion
decrypt_from x round st p [] = some st
decrypt_from x round st p (onion ∷ onions) = elim (decrypt_onion x round st p onion) [
  | none ↦ none
  | some st' ↦ decrypt_from x round st' (p + 1) onions
]

-- `decryptionWorker` on the jobs of a round, in the order in which they were handed over.
unfoldable pub run_jobs : Box → ℕ → RoundState → List OnionsRequest → Option RoundState
unfolding decrypt_from
run_jobs x round st [] = some (record st { jobs = [] })
run_jobs x round st (req ∷ reqs) = elim (decrypt_from x round st req.offset req.onions) [
  | none ↦ none
  | some st' ↦ run_jobs x round st' reqs
]
