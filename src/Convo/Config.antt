-- ===== src/Convo/Config.antt =====
-- The configuration of the conversation service: convo/config.go. The JSON codec of the generated
-- code is a parameter; a version is not negative.
pub mod Codec
mod Examples
use gjallarhorn.Prelude.{
  ℕ, zero, suc, ◌≡◌, Bool, true, false, List, [], ◌∷◌, Option, none, some, if◌then◌else◌, ◌==◌,
  length, map,
}
use gjallarhorn.Prelude.Bytes.{Bytes}
use gjallarhorn.Mixnet.Settings.{PublicServerConfig}

pub record CoordinatorConfig : Type 0 where
  pub key : Bytes
  pub address : Bytes

pub record ConvoConfig : Type 0 where
  pub version : ℕ
  pub coordinator : CoordinatorConfig
  pub mix_servers : List PublicServerConfig

pub record KeyAddr : Type 0 where
  pub key : Bytes
  pub address : Bytes

pub record ConvoV1 : Type 0 where
  pub version : ℕ
  pub coordinator : KeyAddr
  pub mix_servers : List KeyAddr

pub data ConfigError : Type 0 where
  unknown_version : ℕ → ConfigError
  bad_json : ConfigError
  invalid_coordinator_key : ConfigError
  empty_coordinator_address : ConfigError
  no_mix_servers : ConfigError
  invalid_mixer_key : ℕ → ConfigError
  empty_mixer_address : ℕ → ConfigError

pub data Checked {ℓ} (A : Type ℓ) : Type ℓ where
  ok : A → Checked A
  err : ConfigError → Checked A

unfoldable pub use_latest_version : ConvoConfig → ConvoConfig
use_latest_version c = record c { version = 1 }

unfoldable pub v1 : ConvoConfig → ConvoV1
v1 c = record {
  version = 1;
  coordinator = record { key = c.coordinator.key; address = c.coordinator.address };
  mix_servers =
      map (λ (srv : PublicServerConfig). record { key = srv.key; address = srv.address })
        c.mix_servers;
}

unfoldable pub from_v1 : ConvoV1 → ConvoConfig
from_v1 c1 = record {
  version = 1;
  coordinator = record { key = c1.coordinator.key; address = c1.coordinator.address };
  mix_servers =
      map (λ (srv : KeyAddr). record { key = srv.key; address = srv.address }) c1.mix_servers;
}

-- `encoding/json` on the two types that are read and written.
pub record Json : Type 0 where
  pub marshal_v1 : ConvoV1 → Bytes
  pub unmarshal_v1 : Bytes → Option ConvoV1
  pub read_version : Bytes → Option ℕ

-- The codec reads a value back as it has written it, and the version in it.
pub record IsJson (j : Json) (c : ConvoV1) : Type 0 where
  pub unmarshal-marshal : j.unmarshal_v1 (j.marshal_v1 c) ≡ some c
  pub version-marshal : j.read_version (j.marshal_v1 c) ≡ some c.version

unfoldable pub marshal_json : Json → ConvoConfig → Checked Bytes
unfolding v1
marshal_json j c =
    if c.version == 1 then ok (j.marshal_v1 (v1 c)) else err (unknown_version c.version)

-- The configuration that is read into gives its version to the error's text.
unfoldable pub unmarshal_json : Json → Bytes → ConvoConfig → Checked ConvoConfig
unfolding from_v1
unmarshal_json j bytes old = elim (j.read_version bytes) [
  | none ↦ err bad_json
  | some version ↦
      if version == 1
      then elim (j.unmarshal_v1 bytes) [ none ↦ err bad_json | some c1 ↦ ok (from_v1 c1) ]
      else err (unknown_version old.version)
]

-- The loop over the mix servers, from index `i` on.
unfoldable pub validate_mixers : ℕ → List PublicServerConfig → Checked (Unit {0})
validate_mixers i [] = ok tt
validate_mixers i (mix ∷ mixers) =
    let rest = validate_mixers (suc i) mixers in
    if length mix.key == 32
    then if length mix.address == 0 then err (empty_mixer_address i) else rest
    else err (invalid_mixer_key i)

unfoldable pub validate : ConvoConfig → Checked (Unit {0})
unfolding validate_mixers
validate c =
    if length c.coordinator.key == 32
    then if length c.coordinator.address == 0
      then err empty_coordinator_address
      else if length c.mix_servers == 0
      then err no_mix_servers
      else validate_mixers 0 c.mix_servers
    else err invalid_coordinator_key
