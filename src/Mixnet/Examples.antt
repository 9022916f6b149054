-- ===== src/Mixnet/Examples.antt =====
-- Runs of mix servers, and their theorems at concrete inputs.
use gjallarhorn.Prelude.{
  ℕ, ◌-◌, ◌≡◌, refl, ap, Bool, true, List, [], ◌∷◌, ◌++◌, Option, none, some, arith, length, take,
  replicate, length-append,
}
use gjallarhorn.Prelude.Bytes.{Bytes, zeros, big_endian, bytes_equal, bytes_eq}
use gjallarhorn.Prelude.Maps.{lookup, insert, delete, retain}
use gjallarhorn.Mixnet.Settings.{
  RoundSettings, settings_proto, settings_from_proto, read_keys, read_key, PublicServerConfig,
}
use gjallarhorn.Mixnet.Filter.{msg_key, filter_from, filter_incoming}
use gjallarhorn.Mixnet.Filter.Filtered.{IsFiltered, filter_incoming-IsFiltered}
use gjallarhorn.Mixnet.Replies.{Box, IsBox, panics, get_slice}
use gjallarhorn.Mixnet.Replies.Slices.{get_slice-panics}
use gjallarhorn.Mixnet.Rounds.{
  Handled, Service, Server, same_round, get_round, Peer, certificates, auth, service_round_eq,
}
use gjallarhorn.Mixnet.Rounds.Setup.{set_round_settings, fresh_state}
use gjallarhorn.Mixnet.Rounds.Setup.Later.{set_round_settings-Later, now, adds, deletes}
use gjallarhorn.Mixnet.Rounds.Onions.{add_onions}
use gjallarhorn.Mixnet.Rounds.Closing.{delete_round}

-- A box that is a tag of 16 bytes, to run the code with.
take-append : (m tag : Bytes) → take (length m) (m ++ tag) ≡ m
take-append [] tag = refl
take-append (b ∷ m) tag = ap (◌∷◌ b) (take-append m tag)

abbrev pub plain_box : Box
plain_box = record {
  precompute = λ theirs mine. theirs;
  seal_after = λ m nonce key. m ++ replicate 16 9;
  open_after = λ b nonce key. some (take (length b - 16) b);
  open_box = λ b nonce theirs mine. some (take (length b - 16) b);
}

pub plain_box-IsBox : IsBox plain_box
plain_box-IsBox = record {
  seal_length = λ m nonce key. length-append m (replicate 16 9);
  open_seal = λ m nonce key.
      let e : length (m ++ replicate 16 9) - 16 ≡ length m =
        omega (arith, length-append m (replicate 16 9)) in
      rw e (ap some (take-append m (replicate 16 9)));
}

-- The second and the fourth of these onions are dropped: one is nil, the other a copy.
abbrev messages : List (Option Bytes)
messages = some (replicate 8 5) ∷ none ∷ some (replicate 8 6) ∷ some (replicate 8 5) ∷ []

filter_run :
    filter_incoming messages
    ≡ (replicate 8 5 ∷ replicate 8 6 ∷ [], some 0 ∷ none ∷ some 1 ∷ none ∷ [])
unfolding filter_incoming filter_from msg_key big_endian lookup insert delete retain
filter_run = refl

filter_incoming-IsFiltered_example :
    IsFiltered messages (filter_incoming messages).0 (filter_incoming messages).1
filter_incoming-IsFiltered_example = filter_incoming-IsFiltered messages

get_slice-panics_example : get_slice 4294967295 1 (zeros 1 ∷ []) ≡ panics
get_slice-panics_example =
    get_slice-panics 4294967295 1 (zeros 1 ∷ []) (omega arith) (omega arith) (omega arith)
      (omega arith) (omega arith)

abbrev sample_settings : RoundSettings
sample_settings = record {
  service = 67 ∷ [];
  round = 3;
  onion_keys = replicate 32 1 ∷ [];
  raw_service_data = [];
  service_data = none;
}

-- A service whose reply to every message is one byte.
abbrev pub echo : Bool → Handled → Service
echo both answer = record {
  bidirectional = both;
  size_incoming_message = 8;
  size_reply_message = 1;
  parse_service_data = λ d. some d;
  generate_noise = λ settings pos. [];
  handle_messages = λ settings messages. answer;
}

abbrev pub conf : ℕ → PublicServerConfig
conf k = record { key = replicate 32 k; address = k ∷ [] }

abbrev alone : Server
alone = record {
  signing_public = replicate 32 2;
  coordinator_key = 8 ∷ [];
  services = (67 ∷ [], echo true (Handled.replied [])) ∷ [];
  rounds =
      (
        (67 ∷ [], 3),
        fresh_state (echo true (Handled.replied [])) (conf 2 ∷ []) 0 (replicate 32 1) (zeros 32),
      )
      ∷ [];
}

abbrev coordinator : Peer
coordinator = certificates (some (8 ∷ []) ∷ [])

abbrev signed : Server
signed = (set_round_settings (λ s. 5 ∷ []) alone coordinator (settings_proto sample_settings)).0

-- In between the first onions come in, and a round of the same number of another service is deleted.
abbrev meanwhile : Server
meanwhile = (delete_round (add_onions signed coordinator [] []).0 coordinator (68 ∷ []) 3).0

set_round_settings-Later_example : Path Bytes (5 ∷ []) (5 ∷ []) × (meanwhile ≡ meanwhile)
unfolding set_round_settings settings_proto settings_from_proto read_keys read_key auth bytes_equal
    get_round lookup same_round insert delete retain add_onions delete_round
set_round_settings-Later_example =
    set_round_settings-Later (λ s. 5 ∷ []) (λ s. 6 ∷ []) alone signed meanwhile meanwhile
      coordinator coordinator (settings_proto sample_settings) (settings_proto sample_settings)
      (5 ∷ []) (5 ∷ []) refl (deletes coordinator (68 ∷ []) 3 refl (adds coordinator [] [] now))
      refl refl refl
