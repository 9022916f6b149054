-- ===== src/Client/Runs/Examples.antt =====
-- A client that has been told of a round and is told of another.
use gjallarhorn.Prelude.{ℕ, ◌≡◌, refl, sym, ap, true, List, [], ◌∷◌, Option, some, some_inj}
use gjallarhorn.Prelude.Bytes.{Bytes, bytes_equal}
use gjallarhorn.Prelude.Maps.{lookup, insert, delete, retain}
use gjallarhorn.Coordinator.{NewRound, SignedConfig}
use gjallarhorn.Client.{Client, Event, new_convo_round, set_latest_round}
use gjallarhorn.Client.Runs.{IsSynced, Started, Runs, GivesAsked, fresh, told}
use gjallarhorn.Client.Runs.Told.{Reached-Started}

abbrev config_of : Bytes → SignedConfig
config_of hash = record { hash = hash; mix_servers = []; guardians = [] }

abbrev fetch : SignedConfig → Bytes → Option (List SignedConfig)
fetch from hash = some (config_of hash ∷ [])

fetch-GivesAsked : GivesAsked fetch
fetch-GivesAsked from conf hash configs e =
    sym (ap (λ (cs : List SignedConfig). elim cs [ [] ↦ [] | c ∷ rest ↦ c.hash ]) (some_inj e))

abbrev new_client : Client
new_client = record {
  rounds = [];
  connected = true;
  latest_round = 0;
  convo_config = config_of (1 ∷ []);
  convo_config_hash = 1 ∷ [];
}

abbrev info : ℕ → Bytes → NewRound
info round hash = record {
  round = round;
  config_hash = hash;
  mix_settings = record {
    service = 67 ∷ [];
    round = round;
    onion_keys = [];
    raw_service_data = [];
    service_data = Option.none;
  };
  mix_signatures = [];
  end_time = 1000;
}

-- The configuration has changed by round 7.
abbrev after_seven : Client
after_seven = record new_client {
  rounds = (7, record { config = config_of (2 ∷ []); onion_keys = Option.none }) ∷ [];
  latest_round = 7;
  convo_config = config_of (2 ∷ []);
  convo_config_hash = 2 ∷ [];
}

Reached-Started_example :
    IsSynced after_seven
    × ((now : ℕ) (v : NewRound) (c : Client) (events : List Event)
        → new_convo_round fetch now after_seven v ≡ some (c, events)
        → Runs v.round events
        → Started v c)
unfolding new_convo_round set_latest_round lookup insert delete retain bytes_equal
Reached-Started_example =
    Reached-Started fetch fetch-GivesAsked
      (told 100 (info 7 (2 ∷ [])) (fresh new_client refl refl) refl)
