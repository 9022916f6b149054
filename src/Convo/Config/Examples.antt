-- ===== src/Convo/Config/Examples.antt =====
-- The theorems on configurations at a concrete one.
use gjallarhorn.Prelude.{◌≡◌, refl, [], ◌∷◌, some, replicate}
use gjallarhorn.Mixnet.Examples.{conf}
use gjallarhorn.Convo.Config.{
  ConvoConfig, Json, err, ConfigError, v1, use_latest_version, validate, validate_mixers,
}

abbrev sample : ConvoConfig
sample = record {
  version = 0;
  coordinator = record { key = replicate 32 1; address = 97 ∷ [] };
  mix_servers = conf 1 ∷ conf 2 ∷ [];
}

-- A key that is short is found before an empty address.
validate_run :
    validate (record sample { mix_servers = conf 1 ∷ record { key = []; address = [] } ∷ [] })
    ≡ err (ConfigError.invalid_mixer_key 1)
unfolding validate validate_mixers
validate_run = refl

-- A codec for one value.
abbrev codec : Json
codec = record {
  marshal_v1 = λ c. 123 ∷ [];
  unmarshal_v1 = λ b. some (v1 (use_latest_version sample));
  read_version = λ b. some 1;
}
