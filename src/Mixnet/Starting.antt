-- ===== src/Mixnet/Starting.antt =====
-- The coordinator starts a round at all servers of its chain: `NewRound` of the mixnet's client in
-- mixnet/mixnet.go, against the handlers of the servers. The requests of a phase run at once, each at
-- a server of its own; here they are made in turn, and the first error is the one that is told.
pub mod Started
pub mod Signed
pub mod Racing
mod Examples
use gjallarhorn.Prelude.{ℕ, List, [], ◌∷◌, none, map, copy}
use gjallarhorn.Prelude.Bytes.{Bytes, zeros}
use gjallarhorn.Mixnet.Settings.{RoundSettings, SettingsProto, settings_proto, PublicServerConfig}
use gjallarhorn.Mixnet.Rounds.{Outcome, responds, fails, panics, waits, Server, Peer}
use gjallarhorn.Mixnet.Rounds.Setup.{new_round, set_round_settings}

-- A server as the coordinator meets it: its state, how it sees the caller, the key pair that it
-- makes for the round, and its signature of settings.
pub record Node : Type 0 where
  pub config : PublicServerConfig
  pub server : Server
  pub peer : Peer
  pub public : Bytes
  pub private : Bytes
  pub sign : RoundSettings → Bytes

-- The responses of a phase, in the order of the servers, or the first error.
abbrev pub gather : Outcome Bytes → Outcome (List Bytes) → Outcome (List Bytes)
gather (responds b) (responds bs) = responds (b ∷ bs)
gather (responds b) (fails e) = fails e
gather (responds b) panics = panics
gather (responds b) waits = waits
gather (fails e) rest = fails e
gather panics rest = panics
gather waits rest = waits

-- The onion key is copied into 32 bytes.
abbrev pub key_of : Outcome Bytes → Outcome Bytes
key_of (responds key) = responds (copy (zeros 32) key)
key_of (fails e) = fails e
key_of panics = panics
key_of waits = waits

unfoldable pub start_all :
    Bytes → ℕ → List PublicServerConfig → List Node → List Node × Outcome (List Bytes)
unfolding new_round
start_all name round chain [] = ([], responds [])
start_all name round chain (n ∷ ns) =
    let (srv, out) = new_round n.server n.peer name round chain n.public n.private in
    let (ns', rest) = start_all name round chain ns in
    (record n { server = srv } ∷ ns', gather (key_of out) rest)

unfoldable pub set_all : SettingsProto → List Node → List Node × Outcome (List Bytes)
unfolding set_round_settings
set_all req [] = ([], responds [])
set_all req (n ∷ ns) =
    let (srv, out) = set_round_settings n.sign n.server n.peer req in
    let (ns', rest) = set_all req ns in (record n { server = srv } ∷ ns', gather out rest)

abbrev pub settings_for : Bytes → ℕ → Bytes → List Bytes → RoundSettings
settings_for name round raw keys = record {
  service = name;
  round = round;
  onion_keys = keys;
  raw_service_data = raw;
  service_data = none;
}

-- The second phase, once every server has a key.
abbrev pub sign_all :
    Bytes → ℕ → Bytes → List Node × Outcome (List Bytes) → List Node × Outcome (List Bytes)
sign_all name round raw (nodes, responds keys) =
    set_all (settings_proto (settings_for name round raw keys)) nodes
sign_all name round raw (nodes, fails e) = (nodes, fails e)
sign_all name round raw (nodes, panics) = (nodes, panics)
sign_all name round raw (nodes, waits) = (nodes, waits)

-- `NewRound`, with the signatures of the servers as its result.
unfoldable pub new_round_at : Bytes → ℕ → Bytes → List Node → List Node × Outcome (List Bytes)
unfolding start_all set_all settings_proto
new_round_at name round raw nodes =
    sign_all name round raw (start_all name round (map (λ (n : Node). n.config) nodes) nodes)
