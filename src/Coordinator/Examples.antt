-- ===== src/Coordinator/Examples.antt =====
-- Runs of the coordinator, and its theorems at concrete inputs.
use gjallarhorn.Prelude.{◌≡◌, ◌<◌, refl, true, false, List, [], ◌∷◌, Option, none, some, arith}
use gjallarhorn.Prelude.Bytes.{Bytes, bytes_equal}
use gjallarhorn.Mixnet.Settings.{RoundSettings}
use gjallarhorn.Coordinator.{
  Coordinator, SignedConfig, mix_onions, start_round, finish_round, to_one, to_all, reply,
  send_announcement, announcement,
}
use gjallarhorn.Coordinator.Mixing.{joined, shared_out, mix_onions-shared_out}
use gjallarhorn.Coordinator.Gathering.{OnionMsg, receive_messages, bundles_for, finish_round-mixes}
use gjallarhorn.Coordinator.Numbers.{
  started, load_persisted_state-after, load_persisted_state-again,
}

abbrev conf : SignedConfig
conf = record {
  hash = 1 ∷ [];
  mix_servers = record { key = 2 ∷ []; address = 3 ∷ [] } ∷ [];
  guardians = (4 ∷ []) ∷ [];
}

abbrev settings : RoundSettings
settings = record {
  service = 67 ∷ [];
  round = 120;
  onion_keys = (5 ∷ []) ∷ [];
  raw_service_data = [];
  service_data = none;
}

abbrev running : Coordinator
running = record {
  service = 67 ∷ [];
  round = 0;
  persisted = 0;
  rounds = [];
  closed = false;
  fresh_config = true;
  latest_config = some conf;
}

-- Two senders in this round, one in another.
abbrev onion_messages : List OnionMsg
onion_messages =
    record { conn = 1; round = 120; onions = (10 ∷ []) ∷ (11 ∷ []) ∷ [] }
    ∷ record { conn = 2; round = 119; onions = (20 ∷ []) ∷ [] }
    ∷ record { conn = 3; round = 120; onions = (30 ∷ []) ∷ [] }
    ∷ []

-- A mixnet that sends everything back.
abbrev mirror : List Bytes → Option (List Bytes)
mirror onions = some onions

shared_run :
    shared_out 120 (bundles_for 120 onion_messages) ((6 ∷ []) ∷ (7 ∷ []) ∷ (8 ∷ []) ∷ [])
    ≡ to_one 1 (reply 120 ((6 ∷ []) ∷ (7 ∷ []) ∷ [])) ∷ to_one 3 (reply 120 ((8 ∷ []) ∷ [])) ∷ []
unfolding shared_out bundles_for
shared_run = refl

announcement_run :
    (send_announcement running (some (4 ∷ []) ∷ []) (some (9 ∷ []))
      ≡ to_all (announcement (9 ∷ [])) ∷ [])
    × (send_announcement running (some (5 ∷ []) ∷ []) (some (9 ∷ [])) ≡ [])
unfolding send_announcement bytes_equal
announcement_run = (refl, refl)

mix_onions-shared_out_example :
    mix_onions mirror 120 (bundles_for 120 onion_messages)
    ≡ shared_out 120 (bundles_for 120 onion_messages) ((10 ∷ []) ∷ (11 ∷ []) ∷ (30 ∷ []) ∷ [])
unfolding joined bundles_for
mix_onions-shared_out_example =
    mix_onions-shared_out mirror 120 (bundles_for 120 onion_messages)
      ((10 ∷ []) ∷ (11 ∷ []) ∷ (30 ∷ []) ∷ []) refl

finish_round-mixes_example :
    (finish_round mirror
      (receive_messages
        (start_round (λ servers round. some (settings, [])) running 120 50).0
        onion_messages)
      120).1
    ≡ mix_onions mirror 120 (bundles_for 120 onion_messages)
finish_round-mixes_example =
    finish_round-mixes 120 (λ servers round. some (settings, [])) mirror running 50 conf settings []
      onion_messages refl refl refl refl

load_persisted_state-after_example :
    (started 20 running).round < (started 1 (started 20 running)).round
load_persisted_state-after_example =
    load_persisted_state-after 20 running (omega arith) (omega arith)

load_persisted_state-again_example :
    (started 1 (started 5 running)).round ≡ (started 1 running).round
load_persisted_state-again_example =
    load_persisted_state-again 5 running (omega arith) refl (omega arith)
