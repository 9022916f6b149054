-- ===== src/Mixnet/Starting/Racing.antt =====
-- `NewRound` of mixnet/mixnet.go looks for the round and puts it in under two locks: what the second
-- part does to a round that has come in between, and has been signed.
use gjallarhorn.Prelude.{ℕ, ◌≡◌, refl, sym, ap, ◌∙◌, List, none, some, length, get_elem?}
use gjallarhorn.Prelude.Bytes.{Bytes, bytes_eq}
use gjallarhorn.Prelude.Maps.{lookup}
use gjallarhorn.Mixnet.Settings.{settings_proto, PublicServerConfig}
use gjallarhorn.Mixnet.Settings.RoundTrip.{AllKeys}
use gjallarhorn.Mixnet.Rounds.{responds, Service, Server, auth}
use gjallarhorn.Mixnet.Rounds.Setup.{fresh_state, start_round, set_round_settings}
use gjallarhorn.Mixnet.Rounds.Setup.Once.{get_round-inserted}
use gjallarhorn.Mixnet.Rounds.Setup.Signed.{HasSigned}
use gjallarhorn.Mixnet.Starting.{Node, settings_for}
use gjallarhorn.Mixnet.Starting.Started.{IsStarted}
use gjallarhorn.Mixnet.Starting.Signed.{signed}

-- A `NewRound` has found no round, and then another one has begun the round and the server has signed
-- settings for it: when the first one goes on, it replaces the round, and the server then signs, for
-- the same round, any settings that have its new key at its place and keys of 32 bytes for all
-- servers.
pub start_round-signs_again :
    (name : Bytes) (round : ℕ) (raw : Bytes) (keys : List Bytes) (chain : List PublicServerConfig)
    (n : Node) (service : Service) (pos : ℕ) (parsed old : Bytes)
    → HasSigned name round old n.server
    → auth n.server.coordinator_key n.peer ≡ none
    → lookup name n.server.services ≡ some service
    → service.parse_service_data raw ≡ some parsed
    → AllKeys keys
    → length keys ≡ length chain
    → get_elem? keys pos ≡ some n.public
    → (mid : Server) × (srv : Server) × (start_round n.server service name round chain n.public
          n.private
          (some (some pos))
        ≡ (mid, responds n.public))
      × (set_round_settings n.sign mid n.peer (settings_proto (settings_for name round raw keys))
          ≡ (
            srv,
            responds
                (n.sign (record (settings_for name round raw keys) { service_data = some parsed })),
          ))
start_round-signs_again name round raw keys chain n service pos parsed old before lets_in knows
      parses sized counted here =
    let st = fresh_state service chain pos n.public n.private in
    let mid =
      (start_round n.server service name round chain n.public n.private (some (some pos))).0 in
    let started : IsStarted name round raw chain pos (record n { server = mid }) = record {
      lets_in = lets_in;
      service = service;
      knows = knows;
      parsed = parsed;
      parses = parses;
      st = st;
      begun = get_round-inserted n.server name round {st = st};
      unsigned = refl;
      same_chain = refl;
      place = refl;
      keyed = refl;
    } in
    let (srv, sig, set, told, good) =
      signed name round raw keys chain sized counted pos (record n { server = mid }) started here in
    (mid, srv, refl, set ∙ ap (λ b. (srv, responds b)) (sym told))
