-- ===== src/Mixnet/Settings.antt =====
-- The settings of a round and their protobuf form: mixnet/settings.go, and `PublicServerConfig` of
-- mixnet/mixnet.go.
pub mod RoundTrip
use gjallarhorn.Prelude.{
  ℕ, ◌≡◌, Bool, List, [], ◌∷◌, Option, none, some, ltb, ◌==◌, if◌then◌else◌, length, take, map,
  copy,
}
use gjallarhorn.Prelude.Bytes.{Bytes, zeros}

-- `RoundSettings`, and its protobuf message: the two have the same fields but for `ServiceData`,
-- which is not sent. The parsed service data is a byte string here.
pub record RoundSettings : Type 0 where
  pub service : Bytes
  pub round : ℕ
  pub onion_keys : List Bytes
  pub raw_service_data : Bytes
  pub service_data : Option Bytes

pub record SettingsProto : Type 0 where
  pub service : Bytes
  pub round : ℕ
  pub onion_keys : List Bytes
  pub service_data : Bytes

unfoldable pub settings_proto : RoundSettings → SettingsProto
settings_proto s = record {
  service = s.service;
  round = s.round;
  onion_keys = s.onion_keys;
  service_data = s.raw_service_data;
}

-- `n := copy(key[:], …)` must fill the 32 bytes. A longer key is cut.
unfoldable pub read_key : Bytes → Option Bytes
read_key k = if ltb (length k) 32 then none else some (take 32 k)

-- `none` is the error of a key of a wrong size.
unfoldable pub read_keys : List Bytes → Option (List Bytes)
unfolding read_key
read_keys [] = some []
read_keys (k ∷ ks) = elim (read_key k) [
  | none ↦ none
  | some key ↦ elim (read_keys ks) [ none ↦ none | some keys ↦ some (key ∷ keys) ]
]

unfoldable pub settings_from_proto : SettingsProto → Option RoundSettings
unfolding read_keys
settings_from_proto p = elim (read_keys p.onion_keys) [
  | none ↦ none
  | some keys ↦ some (record {
    service = p.service;
    round = p.round;
    onion_keys = keys;
    raw_service_data = p.service_data;
    service_data = none;
  })
]

-- `PublicServerConfig` and its protobuf message have the same two fields.
pub record PublicServerConfig : Type 0 where
  pub key : Bytes
  pub address : Bytes

-- `PublicServerConfig.FromProto`: the key has `ed25519.PublicKeySize` bytes.
unfoldable pub config_from_proto : PublicServerConfig → Option PublicServerConfig
config_from_proto p = if length p.key == 32 then some p else none
