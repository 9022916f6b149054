-- ===== src/Mixnet/Rounds/Setup.antt =====
-- `NewRound` and `SetRoundSettings` of mixnet/mixnet.go. The key pair that `box.GenerateKey` gives,
-- and the signature of the settings, are parameters.
pub mod Once
pub mod Signed
pub mod Worked
pub mod Later
use gjallarhorn.Prelude.{
  ℕ, zero, suc, ◌+◌, ◌-◌, ◌*◌, Bool, true, false, List, [], ◌∷◌, Option, none, some, if◌then◌else◌,
  ◌==◌, length, get_elem?,
}
use gjallarhorn.Prelude.Bytes.{Bytes, bytes_equal, bytes_eq}
use gjallarhorn.Prelude.Maps.{Map, lookup, insert}
use gjallarhorn.Mixnet.Settings.{
  RoundSettings, SettingsProto, settings_from_proto, PublicServerConfig, config_from_proto,
}
use gjallarhorn.Mixnet.Rounds.{
  RpcError, Outcome, responds, fails, panics, Service, RoundState, Server, ServiceRound,
  service_round_eq, get_round, Peer, auth, unknown_service, invalid_key, not_in_chain,
  invalid_settings, round_not_found, bad_service_data, wrong_key_count, unexpected_key,
}

-- The loop over `req.Chain`: a later position of this server's key wins; `none` is a bad key.
unfoldable pub find_from : Bytes → ℕ → Option ℕ → List PublicServerConfig → Option (Option ℕ)
unfolding config_from_proto
find_from mine i pos [] = some pos
find_from mine i pos (conf ∷ chain) =
    let rest = find_from mine (i + 1) (if bytes_equal conf.key mine then some i else pos) chain in
    elim (config_from_proto conf) [ none ↦ none | some c ↦ rest ]

-- The state of a round whose position is `my_pos`; the zero values of Go are written out.
abbrev pub fresh_state : Service → List PublicServerConfig → ℕ → Bytes → Bytes → RoundState
fresh_state service chain my_pos public private = record {
  settings = none;
  settings_signature = none;
  num_incoming = 0;
  incoming = [];
  shared_keys = [];
  incoming_index = [];
  replies = [];
  accepting_onions = false;
  jobs = [];
  encrypt_done = false;
  closed = false;
  close_result = [];
  err = none;
  chain = chain;
  my_pos = my_pos;
  bidirectional = service.bidirectional;
  incoming_onion_size = (length chain - my_pos) * 48 + service.size_incoming_message;
  onion_private_key = private;
  onion_public_key = public;
  noise = none;
}

-- What is left of `NewRound` once the loop has run.
abbrev pub start_round :
    Server
    → Service
    → Bytes
    → ℕ
    → List PublicServerConfig
    → Bytes
    → Bytes
    → Option (Option ℕ)
    → Server × Outcome Bytes
start_round srv service name round chain public private none = (srv, fails invalid_key)
start_round srv service name round chain public private (some none) = (srv, fails not_in_chain)
start_round srv service name round chain public private (some (some pos)) = (
  record srv {
    rounds = insert (name, round) (fresh_state service chain pos public private) srv.rounds;
  },
  responds public,
)

-- `NewRound`: a round that exists keeps its key. The source looks for the round and puts it in under
-- two locks; here no other `NewRound` for the round runs in between. `start_round` alone is the
-- second part.
unfoldable pub new_round :
    Server → Peer → Bytes → ℕ → List PublicServerConfig → Bytes → Bytes → Server × Outcome Bytes
unfolding auth find_from
new_round srv peer name round chain public private = elim (auth srv.coordinator_key peer) [
  | some e ↦ (srv, fails e)
  | none ↦ elim (lookup name srv.services) [
    | none ↦ (srv, fails unknown_service)
    | some service ↦ elim (lookup (name, round) srv.rounds) [
      | some st ↦ (srv, responds st.onion_public_key)
      | none ↦
          start_round srv service name round chain public private
            (find_from srv.signing_public 0 none chain)
    ]
  ]
]

-- The checks on the keys, of which the server's own must be the one that it made.
abbrev pub key_error : RoundState → RoundSettings → Outcome (Unit {0})
key_error st settings =
    if length settings.onion_keys == length st.chain
    then elim (get_elem? settings.onion_keys st.my_pos) [
      | none ↦ panics
      | some key ↦ if bytes_equal key st.onion_public_key then responds tt else fails unexpected_key
    ]
    else fails wrong_key_count

-- A server signs the settings of a round once, and starts to make noise.
abbrev pub sign_settings :
    Server
    → Service
    → RoundState
    → RoundSettings
    → Bytes
    → Outcome (Unit {0})
    → Server × Outcome Bytes
sign_settings srv service st settings sig (responds u) = (
  record srv {
    rounds =
        insert (settings.service, settings.round)
          (record st {
            settings = some settings;
            settings_signature = some sig;
            noise = some (service.generate_noise settings st.my_pos);
          })
          srv.rounds;
  },
  responds sig,
)
sign_settings srv service st settings sig (fails e) = (srv, fails e)
sign_settings srv service st settings sig panics = (srv, panics)
sign_settings srv service st settings sig Outcome.waits = (srv, Outcome.waits)

abbrev pub set_found :
    Server
    → Service
    → RoundState
    → RoundSettings
    → (RoundSettings → Bytes)
    → Option Bytes
    → Server × Outcome Bytes
set_found srv service st settings sign (some sig) = (srv, responds sig)
set_found srv service st settings sign none =
    sign_settings srv service st settings (sign settings) (key_error st settings)

-- `SetRoundSettings`, with `sign` for the signature of the signing message. A service that is
-- unknown here is a nil pointer.
unfoldable pub set_round_settings :
    (RoundSettings → Bytes) → Server → Peer → SettingsProto → Server × Outcome Bytes
unfolding auth settings_from_proto get_round
set_round_settings sign srv peer req = elim (auth srv.coordinator_key peer) [
  | some e ↦ (srv, fails e)
  | none ↦ elim (settings_from_proto req) [
    | none ↦ (srv, fails invalid_settings)
    | some parsed ↦ elim (get_round srv parsed.service parsed.round) [
      | none ↦ (srv, fails round_not_found)
      | some st ↦ elim (lookup parsed.service srv.services) [
        | none ↦ (srv, panics)
        | some service ↦ elim (service.parse_service_data parsed.raw_service_data) [
          | none ↦ (srv, fails bad_service_data)
          | some d ↦
              set_found srv service st (record parsed { service_data = some d }) sign
                st.settings_signature
        ]
      ]
    ]
  ]
]
