-- ===== src/Coordinator.antt =====
-- The coordinator: coordinator/server.go and coordinator/persist.go. Its lock makes each handler one
-- step; what a handler sends is a list of messages. Times are numbers.
pub mod Mixing
pub mod Exchange
mod Crossing
pub mod Gathering
pub mod Numbers
mod Examples
use gjallarhorn.Prelude.{
  ℕ, zero, suc, ◌+◌, ◌-◌, ◌%◌, Bool, true, false, List, [], ◌∷◌, ◌++◌, Option, none, some,
  if◌then◌else◌, ltb, ◌==◌, length, take, drop, map, nat_eq,
}
use gjallarhorn.Prelude.Bytes.{Bytes, bytes_equal, u32}
use gjallarhorn.Prelude.Maps.{Map, lookup, insert, delete}
use gjallarhorn.Mixnet.Settings.{RoundSettings, PublicServerConfig}

-- A connection is known by its number.
pub record OnionBundle : Type 0 where
  pub sender : ℕ
  pub onions : List Bytes

pub record NewRound : Type 0 where
  pub round : ℕ
  pub config_hash : Bytes
  pub mix_settings : RoundSettings
  pub mix_signatures : List Bytes
  pub end_time : ℕ

pub record Round : Type 0 where
  pub round_info : NewRound
  pub is_open : Bool
  pub onions : List OnionBundle

pub data Message : Type 0 where
  new_round : NewRound → Message
  reply : ℕ → List Bytes → Message
  not_found : ℕ → Message
  round_closed : ℕ → Message
  server_error : ℕ → Message
  announcement : Bytes → Message

pub data Sent : Type 0 where
  to_one : ℕ → Message → Sent
  to_all : Message → Sent

-- What the coordinator reads of a signed configuration: its hash, its mix servers, its guardians.
pub record SignedConfig : Type 0 where
  pub hash : Bytes
  pub mix_servers : List PublicServerConfig
  pub guardians : List Bytes

pub record Coordinator : Type 0 where
  pub service : Bytes
  pub round : ℕ
  pub persisted : ℕ
  pub rounds : Map ℕ Round
  pub closed : Bool
  pub fresh_config : Bool
  pub latest_config : Option SignedConfig

-- `Close`; `false` is `ErrServerClosed`.
unfoldable pub close : Coordinator → Coordinator × Bool
close srv = if srv.closed then (srv, false) else (record srv { closed = true }, true)

-- `incomingOnion`, on the round it is for.
abbrev pub add_bundle : ℕ → List Bytes → Round → Round
add_bundle c onions st = record st {
  onions = st.onions ++ (record { sender = c; onions = onions } ∷ []);
}

abbrev pub incoming_tested :
    Coordinator → ℕ → ℕ → List Bytes → Round → Bool → Coordinator × List Sent
incoming_tested srv c round onions st true =
    (record srv { rounds = insert round (add_bundle c onions st) srv.rounds }, [])
incoming_tested srv c round onions st false = (srv, to_one c (round_closed round) ∷ [])

abbrev pub incoming_found :
    Coordinator → ℕ → ℕ → List Bytes → Option Round → Coordinator × List Sent
incoming_found srv c round onions none = (srv, to_one c (not_found round) ∷ [])
incoming_found srv c round onions (some st) = incoming_tested srv c round onions st st.is_open

unfoldable pub incoming_onion : Coordinator → ℕ → ℕ → List Bytes → Coordinator × List Sent
incoming_onion srv c round onions = incoming_found srv c round onions (lookup round srv.rounds)

-- `onConnect`: rounds with less than 100 ms left are not announced. Go's map order is the list's.
unfoldable pub on_connect : ℕ → ℕ → Map ℕ Round → List Sent
on_connect now c [] = []
on_connect now c ((r, st) ∷ rounds) =
    if ltb st.round_info.end_time (now + 100)
    then on_connect now c rounds
    else to_one c (new_round st.round_info) ∷ on_connect now c rounds

-- One turn of `updateConfigLoop`, with what `CurrentConfig` gave.
unfoldable pub update_config : Coordinator → Option SignedConfig → Coordinator
update_config srv none = record srv { fresh_config = false }
update_config srv (some conf) = record srv { fresh_config = true; latest_config = some conf }

-- `sendAnnouncementHandler`: who may announce; the body has been decoded.
abbrev pub is_guardian : Bytes → List Bytes → Bool
is_guardian key [] = false
is_guardian key (g ∷ gs) = if bytes_equal g key then true else is_guardian key gs

abbrev pub announce_from : Option SignedConfig → Bytes → Bytes → List Sent
announce_from none key text = []
announce_from (some conf) key text =
    if is_guardian key conf.guardians then to_all (announcement text) ∷ [] else []

-- The peer's certificates, each with its ed25519 key if it has one; the first one counts.
unfoldable pub send_announcement : Coordinator → List (Option Bytes) → Option Bytes → List Sent
send_announcement srv [] body = []
send_announcement srv (none ∷ certs) body = []
send_announcement srv (some key ∷ certs) none = []
send_announcement srv (some key ∷ certs) (some text) = announce_from srv.latest_config key text

pub record SenderRange : Type 0 where
  pub sender : ℕ
  pub start : ℕ
  pub end : ℕ

-- The loop of `mixOnions` that lays the bundles side by side, with the onions so far.
unfoldable pub lay_out : List Bytes → List OnionBundle → List Bytes × List SenderRange
lay_out onions [] = (onions, [])
lay_out onions (o ∷ out) =
    let (all, ranges) = lay_out (onions ++ o.onions) out in
    (
      all,
      record { sender = o.sender; start = length onions; end = length onions + length o.onions }
          ∷ ranges,
    )

-- `replies[sr.start:sr.end]` for each sender.
unfoldable pub send_ranges : ℕ → List Bytes → List SenderRange → List Sent
send_ranges round replies [] = []
send_ranges round replies (sr ∷ ranges) =
    to_one sr.sender (reply round (take (sr.end - sr.start) (drop sr.start replies)))
    ∷ send_ranges round replies ranges

-- `mixOnions`, with what `RunRoundBidirectional` gives for the batch.
unfoldable pub mix_onions : (List Bytes → Option (List Bytes)) → ℕ → List OnionBundle → List Sent
unfolding lay_out send_ranges
mix_onions run round out =
    let (onions, ranges) = lay_out [] out in
    elim (run onions) [
      | none ↦ to_all (server_error round) ∷ []
      | some replies ↦ send_ranges round replies ranges
    ]

-- `runRound` until it sleeps: `none` is a return before the round is open. `start` stands for
-- the client's `NewRound`, which gives the settings with the servers' keys, and their signatures.
abbrev pub open_round :
    Coordinator
    → ℕ
    → ℕ
    → SignedConfig
    → Option (RoundSettings × List Bytes)
    → Coordinator × List Sent
open_round srv round deadline conf none = (srv, [])
open_round srv round deadline conf (some (settings, sigs)) =
    let info : NewRound = record {
      round = round;
      config_hash = conf.hash;
      mix_settings = settings;
      mix_signatures = sigs;
      end_time = deadline;
    } in
    (
      record srv {
        rounds =
            insert round (record { round_info = info; is_open = true; onions = [] }) srv.rounds;
      },
      to_all (new_round info) ∷ [],
    )

unfoldable pub start_round :
    (List PublicServerConfig → ℕ → Option (RoundSettings × List Bytes))
    → Coordinator
    → ℕ
    → ℕ
    → Coordinator × List Sent
start_round start srv round deadline =
    if srv.fresh_config
    then elim srv.latest_config [
      | none ↦ (srv, [])
      | some conf ↦ open_round srv round deadline conf (start conf.mix_servers round)
    ]
    else (srv, [])

-- `runRound` from the deadline on, if the server was not shut down in its sleep: it closes the
-- round, mixes, and in the end deletes it. While it mixes, onions for the round are refused as closed,
-- and the configuration has a mix server: both are left out here.
unfoldable pub finish_round :
    (List Bytes → Option (List Bytes)) → Coordinator → ℕ → Coordinator × List Sent
unfolding mix_onions
finish_round run srv round = elim (lookup round srv.rounds) [
  | none ↦ (srv, [])
  | some st ↦ (
    record srv { rounds = delete round srv.rounds },
    if srv.closed then [] else mix_onions run round st.onions,
  )
]

-- The start of `loop`, and one turn of it: every 20th round is persisted, here at once.
unfoldable pub start_loop : Coordinator → Coordinator
start_loop srv = record srv { round = u32 (srv.round + 100) }

unfoldable pub next_round : Coordinator → Coordinator
next_round srv =
    let round = u32 (srv.round + 1) in
    record srv { round = round; persisted = if round % 20 == 0 then round else srv.persisted }

-- `LoadPersistedState` on what `Persist` wrote, in a new process.
unfoldable pub load_persisted_state : Coordinator → Coordinator
load_persisted_state srv = record srv { round = srv.persisted; rounds = []; closed = false }
