-- ===== src/Mixnet/Rounds.antt =====
-- The state that a mix server keeps for its rounds: `Server`, `roundState`, `getRound`, `auth` and
-- `authPrev` of mixnet/mixnet.go. The server's lock makes each handler one step; the noise that a
-- goroutine makes is made at once, and what closing a round waits for is written out there.
pub mod Setup
pub mod Onions
pub mod Closing
pub mod Examples
use gjallarhorn.Prelude.{
  ℕ, zero, suc, ◌≡◌, ◌↔◌, Bool, true, false, ◌&&◌, List, [], ◌∷◌, Option, none, some, if◌then◌else◌,
  ◌==◌, ==_iff, get_elem?, Eq, arith,
}
use gjallarhorn.Prelude.Bytes.{Bytes, bytes_equal, bytes_equal_iff}
use gjallarhorn.Prelude.Maps.{Map, lookup}
use gjallarhorn.Mixnet.Settings.{RoundSettings, PublicServerConfig}
use gjallarhorn.Mixnet.Replies.{Box}

pub data RpcError : Type 0 where
  no_peer : RpcError
  unknown_auth_info : RpcError
  wrong_certificates : RpcError
  not_ed25519 : RpcError
  wrong_edtls_key : RpcError
  round_not_found : RpcError
  unknown_service : RpcError
  invalid_key : RpcError
  not_in_chain : RpcError
  invalid_settings : RpcError
  bad_service_data : RpcError
  wrong_key_count : RpcError
  unexpected_key : RpcError
  bad_metadata : RpcError
  other_num_incoming : RpcError
  overflowing_onions : RpcError
  run_round_failed : RpcError
  service_failed : RpcError
  not_bidirectional : RpcError
  invalid_range : RpcError

-- What a handler gives: its response, an error, a panic, or a wait that never ends.
pub data Outcome {ℓ} (A : Type ℓ) : Type ℓ where
  responds : A → Outcome A
  fails : RpcError → Outcome A
  panics : Outcome A
  waits : Outcome A

-- The result of `HandleMessages`; a nil reply is the empty byte string, as for `len`.
pub data Handled : Type 0 where
  replied : List Bytes → Handled
  result : Bytes → Handled
  failed : Handled

-- `MixService`.
pub record Service : Type 0 where
  pub bidirectional : Bool
  pub size_incoming_message : ℕ
  pub size_reply_message : ℕ
  pub parse_service_data : Bytes → Option Bytes
  pub generate_noise : RoundSettings → ℕ → List Bytes
  pub handle_messages : RoundSettings → List Bytes → Handled

-- `AddOnionsRequest`, as a job that has been given to the workers.
pub record OnionsRequest : Type 0 where
  pub offset : ℕ
  pub onions : List Bytes

pub record RoundState : Type 0 where
  pub settings : Option RoundSettings
  pub settings_signature : Option Bytes
  pub num_incoming : ℕ
  pub incoming : List (Option Bytes)
  pub shared_keys : List Bytes
  pub incoming_index : List (Option ℕ)
  pub replies : List Bytes
  pub accepting_onions : Bool
  pub jobs : List OnionsRequest
  pub encrypt_done : Bool
  pub closed : Bool
  pub close_result : Bytes
  pub err : Option RpcError
  pub chain : List PublicServerConfig
  pub my_pos : ℕ
  pub bidirectional : Bool
  pub incoming_onion_size : ℕ
  pub onion_private_key : Bytes
  pub onion_public_key : Bytes
  pub noise : Option (List Bytes)

abbrev pub ServiceRound : Type 0
ServiceRound = Bytes × ℕ

unfoldable pub same_round : ServiceRound → ServiceRound → Bool
same_round (s, r) (s', r') = bytes_equal s s' && (r == r')

pub same_round_iff : (a b : ServiceRound) → (same_round a b ≡ true) ↔ (a ≡ b)
unfolding same_round
same_round_iff (s, r) (s', r') = ground (arith, bytes_equal_iff s s', ==_iff r r')

instance abbrev pub service_round_eq : Eq ServiceRound
service_round_eq = record { beq = same_round; beq_iff = same_round_iff }

pub record Server : Type 0 where
  pub signing_public : Bytes
  pub coordinator_key : Bytes
  pub services : Map Bytes Service
  pub rounds : Map ServiceRound RoundState

unfoldable pub get_round : Server → Bytes → ℕ → Option RoundState
get_round srv service round = lookup (service, round) srv.rounds

-- What gRPC knows of the caller: its certificates, each with its ed25519 key if it has one.
pub data Peer : Type 0 where
  no_context : Peer
  no_tls : Peer
  certificates : List (Option Bytes) → Peer

-- `none` lets the caller in.
unfoldable pub auth : Bytes → Peer → Option RpcError
auth expected no_context = some no_peer
auth expected no_tls = some unknown_auth_info
auth expected (certificates []) = some wrong_certificates
auth expected (certificates (none ∷ [])) = some not_ed25519
auth expected (certificates (some key ∷ [])) =
    if bytes_equal expected key then none else some wrong_edtls_key
auth expected (certificates (c ∷ d ∷ more)) = some wrong_certificates

-- The key of the server before this one; `none` is an index out of range.
abbrev pub previous_key : Bytes → ℕ → List PublicServerConfig → Option Bytes
previous_key coordinator_key zero chain = some coordinator_key
previous_key coordinator_key (suc before) chain = elim (get_elem? chain before) [
  | none ↦ none
  | some conf ↦ some conf.key
]

unfoldable pub auth_prev : Server → Peer → RoundState → Outcome (Unit {0})
unfolding auth
auth_prev srv peer st = elim (previous_key srv.coordinator_key st.my_pos st.chain) [
  | none ↦ panics
  | some expected ↦ elim (auth expected peer) [ none ↦ responds tt | some e ↦ fails e ]
]
