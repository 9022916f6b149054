-- ===== src/Client/Examples.antt =====
-- Runs of the client, and its theorems at concrete inputs.
use gjallarhorn.Prelude.{
  ℕ, ◌+◌, ◌≤◌, ◌≡◌, refl, Bool, true, List, [], ◌∷◌, ◌++◌, Option, none, some, length, get_elem?,
  replicate, take, nat_eq,
}
use gjallarhorn.Prelude.Bytes.{Bytes, zeros, bytes_equal}
use gjallarhorn.Prelude.Maps.{lookup, insert, delete, retain}
use gjallarhorn.Mixnet.Settings.{RoundSettings}
use gjallarhorn.Mixnet.Replies.{backward_nonce}
use gjallarhorn.Coordinator.{NewRound, SignedConfig}
use gjallarhorn.Convo.{DeadDropMessage}
use gjallarhorn.Client.{
  Client, Event, replies, run_round, verify_all, seal_all, open_reply_onion, reply_onion_size,
  new_convo_round, set_latest_round, run,
}
use gjallarhorn.Client.Rounds.{run_round-Sending, open_reply_onion-replies, opened}
use gjallarhorn.Client.Active.{
  GuiClient, replies as gui_replies, Reaches, start, activates, activate_convo, outgoing,
  outgoing-length, deactivate_convo,
}
use gjallarhorn.Client.Active.Snapshot.{replies-outgoing, at_once, starts, ends, goes_out}

abbrev settings : RoundSettings
settings = record {
  service = 67 ∷ [];
  round = 7;
  onion_keys = (5 ∷ []) ∷ [];
  raw_service_data = [];
  service_data = none;
}

abbrev conf : SignedConfig
conf = record {
  hash = 1 ∷ [];
  mix_servers = record { key = 2 ∷ []; address = [] } ∷ [];
  guardians = [];
}

abbrev round_info : NewRound
round_info = record {
  round = 7;
  config_hash = 1 ∷ [];
  mix_settings = settings;
  mix_signatures = (2 ∷ []) ∷ [];
  end_time = 1000;
}

-- Signatures that are the key, and onions that are the message.
abbrev signed_by : RoundSettings → Bytes → Bytes → Bool
signed_by s key sig = bytes_equal key sig

abbrev sealed : RoundSettings → Bytes → Bytes → Bytes × List Bytes
sealed s nonce msg = (msg, (3 ∷ []) ∷ [])

run_round-Sending_example :
    (sig : Bytes) × (get_elem? ((2 ∷ []) ∷ []) 0 ≡ some sig)
    × (signed_by settings (2 ∷ []) sig ≡ true)
    × (100 + 300 ≤ 1000)
    × (700 + 10 ≤ 1000)
unfolding run_round verify_all seal_all bytes_equal
run_round-Sending_example =
    run_round-Sending signed_by sealed [] 300 100 700 conf round_info [] [] 0
      (record { key = 2 ∷ []; address = [] }) refl refl

abbrev started : Client
started = record {
  rounds = (7, record { config = conf; onion_keys = some (((3 ∷ []) ∷ []) ∷ []) }) ∷ [];
  connected = true;
  latest_round = 7;
  convo_config = conf;
  convo_config_hash = 1 ∷ [];
}

-- A later round is announced with the same configuration.
announced_run :
    new_convo_round (λ c hash. none) 100 started (record round_info { round = 9 })
    ≡ some (
      record started {
        latest_round = 9;
        rounds = (9, record { config = conf; onion_keys = none }) ∷ started.rounds;
      },
      run 9 ∷ [],
    )
unfolding new_convo_round set_latest_round lookup insert delete retain bytes_equal
announced_run = refl

abbrev unsealed : Bytes → Bytes → List Bytes → Option Bytes
unsealed nonce onion keys = some (take 256 onion)

open_reply_onion-replies_example :
    (msgs : List (Option Bytes)) × (events : List Event) × (open_reply_onion unsealed started 7
        (replicate 272 4 ∷ [])
      ≡ (record started { rounds = delete 7 started.rounds }, events ++ (replies 7 msgs ∷ [])))
    × (length msgs ≡ 1)
    × (get_elem? msgs 0
        ≡ some (
            opened
              (unsealed (backward_nonce 7))
              (reply_onion_size conf)
              (replicate 272 4)
              ((3 ∷ []) ∷ [])))
unfolding lookup
open_reply_onion-replies_example =
    open_reply_onion-replies unsealed started 7 (replicate 272 4 ∷ [])
      (record { config = conf; onion_keys = some (((3 ∷ []) ∷ []) ∷ []) }) (((3 ∷ []) ∷ []) ∷ []) 0
      (replicate 272 4) ((3 ∷ []) ∷ []) refl refl refl refl refl

-- A client with one conversation.
abbrev talking : GuiClient
talking = (activate_convo 4 (record { active = []; pending_rounds = [] })).0

talking_run : Reaches talking
talking_run = activates 4 start

abbrev message : ℕ → DeadDropMessage
message k = record { drop_id = replicate 16 k; encrypted_message = replicate 256 k }

outgoing-length_example : length (outgoing message message talking 7).1 ≡ 5
outgoing-length_example = outgoing-length message message 7 talking talking_run

-- While round 7 is out the conversation ends, another one starts, and round 8 goes out.
abbrev meanwhile : GuiClient
meanwhile =
    (outgoing message message
      (activate_convo 9 (deactivate_convo 4 (outgoing message message talking 7).0).0).0 8).0

replies-outgoing_example :
    (given : List (ℕ × Option Bytes)) × (r : Option Bytes) × ((gui_replies meanwhile 7
        (replicate 5 (some (zeros 256)))).1
      ≡ some given)
    × (length given ≡ 1)
    × (lookup 7 (gui_replies meanwhile 7 (replicate 5 (some (zeros 256)))).0.pending_rounds ≡ none)
    × (get_elem? given 0 ≡ some (4, r))
    × (get_elem? (replicate 5 (some (zeros 256))) 0 ≡ some r)
    × (get_elem? (outgoing message message talking 7).1 0 ≡ some (message 4))
unfolding activate_convo
replies-outgoing_example =
    replies-outgoing message message 7 talking meanwhile (replicate 5 (some (zeros 256))) 0 4
      talking_run
      (goes_out message message 8 refl
        (starts 9 (ends 4 (at_once (outgoing message message talking 7).0))))
      refl refl
