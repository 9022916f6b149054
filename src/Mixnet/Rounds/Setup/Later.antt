-- ===== src/Mixnet/Rounds/Setup/Later.antt =====
-- The signature of a round over any requests that a server handles one after the other.
use gjallarhorn.Prelude.{ℕ, ◌≡◌, false, List}
use Prim.Native.String.{String}
use gjallarhorn.Prelude.Bytes.{Bytes, bytes_eq}
use gjallarhorn.Prelude.Maps.{Map}
use gjallarhorn.Mixnet.Settings.{RoundSettings, SettingsProto, PublicServerConfig}
use gjallarhorn.Mixnet.Rounds.{responds, Server, same_round, service_round_eq, Peer, OnionsRequest}
use gjallarhorn.Mixnet.Rounds.Setup.{new_round, set_round_settings}
use gjallarhorn.Mixnet.Rounds.Setup.Once.{set_round_settings-stores, signed_once}
use gjallarhorn.Mixnet.Rounds.Onions.{parse_metadata, add_onions}
use gjallarhorn.Mixnet.Rounds.Closing.{World, close_round, delete_round}
use gjallarhorn.Mixnet.Rounds.Setup.Signed.{
  HasSigned, new_round-HasSigned, set_round_settings-HasSigned, delete_round-HasSigned,
}
use gjallarhorn.Mixnet.Rounds.Setup.Worked.{close_round-HasSigned, add_parsed-HasSigned}

module _ (name : Bytes) (round : ℕ) (sig : Bytes) where
  -- A server after any requests, with any peers and answers of other servers, but for the deletion
  -- of this round.
  pub data Later (srv : Server) : Server → Type 0 where
    now : Later srv srv
    starts :
        (peer : Peer) (other : Bytes) (number : ℕ) (chain : List PublicServerConfig)
        (public private : Bytes) {mid : Server}
        → Later srv mid
        → Later srv (new_round mid peer other number chain public private).0
    signs :
        (sign : RoundSettings → Bytes) (peer : Peer) (req : SettingsProto) {mid : Server}
        → Later srv mid
        → Later srv (set_round_settings sign mid peer req).0
    adds :
        (peer : Peer) (md : Map String (List Bytes)) (reqs : List OnionsRequest) {mid : Server}
        → Later srv mid
        → Later srv (add_onions mid peer md reqs).0
    closes_round :
        (w : World) (peer : Peer) (other : Bytes) (number : ℕ) {mid : Server}
        → Later srv mid
        → Later srv (close_round w mid peer other number).0
    deletes :
        (peer : Peer) (other : Bytes) (number : ℕ) {mid : Server}
        → same_round (other, number) (name, round) ≡ false
        → Later srv mid
        → Later srv (delete_round mid peer other number).0

  Later-HasSigned :
      {srv srv' : Server}
      → Later srv srv'
      → HasSigned name round sig srv
      → HasSigned name round sig srv'
  unfolding add_onions
  Later-HasSigned now h = h
  Later-HasSigned (starts peer other number chain public private {mid} l) h =
      new_round-HasSigned name round sig mid peer other number chain public private
        (Later-HasSigned l h)
  Later-HasSigned (signs sign peer req {mid} l) h =
      set_round_settings-HasSigned name round sig sign mid peer req (Later-HasSigned l h)
  Later-HasSigned (adds peer md reqs {mid} l) h =
      add_parsed-HasSigned name round sig mid peer reqs (parse_metadata md) (Later-HasSigned l h)
  Later-HasSigned (closes_round w peer other number {mid} l) h =
      close_round-HasSigned name round sig w mid peer other number (Later-HasSigned l h)
  Later-HasSigned (deletes peer other number {mid} differ l) h =
      delete_round-HasSigned name round sig mid peer other number differ (Later-HasSigned l h)

-- Once a server has signed settings for a round, any later success of `SetRoundSettings` for that
-- round gives the same signature and leaves the server as it is then, whatever its settings are and
-- whatever requests for this and other rounds the server has handled in between, as long as this
-- round was not deleted.
pub set_round_settings-Later :
    (sign sign' : RoundSettings → Bytes) (srv srv1 srv2 srv3 : Server) (peer peer' : Peer)
    (req req' : SettingsProto) (sig sig' : Bytes)
    → set_round_settings sign srv peer req ≡ (srv1, responds sig)
    → Later req.service req.round sig srv1 srv2
    → req'.service ≡ req.service
    → req'.round ≡ req.round
    → set_round_settings sign' srv2 peer' req' ≡ (srv3, responds sig')
    → (sig' ≡ sig) × (srv3 ≡ srv2)
set_round_settings-Later sign sign' srv srv1 srv2 srv3 peer peer' req req' sig sig' first later
      same_service same_number again =
    signed_once sign' srv2 srv3 peer' req' sig sig'
      (rw (same_service, same_number)
        (Later-HasSigned req.service req.round sig later
          (set_round_settings-stores sign srv srv1 peer req sig first)))
      again
