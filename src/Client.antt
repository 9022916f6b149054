-- ===== src/Client.antt =====
-- The client of the conversation protocol: client.go, and the table of active conversations of
-- cmd/gjallarhorn-client/gui.go. Times are numbers of milliseconds; each handler is one step.
pub mod Rounds
pub mod Runs
pub mod Active
pub mod Windows
pub mod Commands
pub mod Notify
pub mod Connect
mod Examples
use gjallarhorn.Prelude.{
  ℕ, zero, suc, ◌+◌, ◌-◌, ◌*◌, Bool, true, false, List, [], ◌∷◌, ◌++◌, Option, none, some,
  if◌then◌else◌, ltb, leb, ◌==◌, length, get_elem?, nat_eq,
}
use gjallarhorn.Prelude.Bytes.{Bytes, bytes_equal}
use gjallarhorn.Prelude.Maps.{Map, lookup, insert, delete}
use gjallarhorn.Mixnet.Settings.{RoundSettings, PublicServerConfig}
use gjallarhorn.Mixnet.Replies.{forward_nonce, backward_nonce}
use gjallarhorn.Coordinator.{NewRound, SignedConfig}
use gjallarhorn.Convo.{DeadDropMessage}
use gjallarhorn.Convo.Wire.{marshal_drop}

-- `roundState`: the keys of each message, one for each mix server; nil until the onions are made.
pub record ClientRound : Type 0 where
  pub config : SignedConfig
  pub onion_keys : Option (List (List Bytes))

pub record Client : Type 0 where
  pub rounds : Map ℕ ClientRound
  pub connected : Bool
  pub latest_round : ℕ
  pub convo_config : SignedConfig
  pub convo_config_hash : Bytes

-- What the handlers tell the rest of the program.
pub data Event : Type 0 where
  debug_error : ℕ → Event
  failed : ℕ → Event
  new_config : List SignedConfig → Event
  persisted : Event
  run : ℕ → Event
  replies : ℕ → List (Option Bytes) → Event

-- `LatestRound`; `none` is the error of a client that is not connected.
unfoldable pub latest_round_of : Client → Option ℕ
latest_round_of c = if c.connected then some c.latest_round else none

unfoldable pub set_latest_round : ℕ → Client → Client
set_latest_round round c = if ltb c.latest_round round then record c { latest_round = round } else c

-- The round gets its state, and runs.
abbrev pub add_round : Client → NewRound → SignedConfig → Client × List Event
add_round c v conf = (
  record c { rounds = insert v.round (record { config = conf; onion_keys = none }) c.rounds },
  run v.round ∷ [],
)

-- With the chain that `FetchAndVerifyChain` gives, newest first; `none` is a panic.
abbrev pub fetched : Client → NewRound → Option (List SignedConfig) → Option (Client × List Event)
fetched c v none = some (c, failed v.round ∷ [])
fetched c v (some []) = none
fetched c v (some (conf ∷ configs)) =
    let (c', events) =
      add_round (record c { convo_config = conf; convo_config_hash = v.config_hash }) v conf in
    some (c', new_config (conf ∷ configs) ∷ persisted ∷ events)

abbrev pub announced :
    (SignedConfig → Bytes → Option (List SignedConfig))
    → Client
    → NewRound
    → Option ClientRound
    → Option (Client × List Event)
announced fetch c v (some st) =
    some (c, if bytes_equal st.config.hash v.config_hash then [] else failed v.round ∷ [])
announced fetch c v none =
    if bytes_equal v.config_hash c.convo_config_hash
    then some (add_round c v c.convo_config)
    else fetched c v (fetch c.convo_config v.config_hash)

-- `newConvoRound`, if the state can be written to disk.
unfoldable pub new_convo_round :
    (SignedConfig → Bytes → Option (List SignedConfig))
    → ℕ
    → Client
    → NewRound
    → Option (Client × List Event)
unfolding set_latest_round
new_convo_round fetch now c v =
    let c' = set_latest_round v.round c in
    if ltb v.end_time (now + 20)
    then some (c', debug_error v.round ∷ [])
    else announced fetch c' v (lookup v.round c'.rounds)

-- How a round's goroutine ends; the keys are those that it has left in the round.
pub data Ran : Type 0 where
  unverified : Ran
  panicked : Ran
  skipped : Ran
  abandoned : List (List Bytes) → Ran
  sends : List Bytes → List (List Bytes) → Ran

pub data Verified : Type 0 where
  all_good : Verified
  one_bad : Verified
  out_of_range : Verified

-- The loop over the mix servers, on the signatures from its index on.
unfoldable pub verify_all : (Bytes → Bytes → Bool) → List PublicServerConfig → List Bytes → Verified
verify_all verify [] sigs = all_good
verify_all verify (mixer ∷ mixers) [] = out_of_range
verify_all verify (mixer ∷ mixers) (sig ∷ sigs) =
    if verify mixer.key sig then verify_all verify mixers sigs else one_bad

-- The loop that seals the outgoing messages, with their keys.
unfoldable pub seal_all :
    (Bytes → Bytes × List Bytes) → List DeadDropMessage → List Bytes × List (List Bytes)
unfolding marshal_drop
seal_all seal [] = ([], [])
seal_all seal (m ∷ ms) =
    let (onion, keys) = seal (marshal_drop m) in
    let (onions, onion_keys) = seal_all seal ms in (onion ∷ onions, keys ∷ onion_keys)

-- The rest of `runRound`: `now` and `sealed_at` are the times before the sleep and after the sealing.
abbrev pub run_verified :
    (Bytes → Bytes × List Bytes) → List DeadDropMessage → ℕ → ℕ → ℕ → NewRound → Verified → Ran
run_verified seal outgoing latency now sealed_at v one_bad = unverified
run_verified seal outgoing latency now sealed_at v out_of_range = panicked
run_verified seal outgoing latency now sealed_at v all_good =
    let (onions, onion_keys) = seal_all seal outgoing in
    if ltb v.end_time (now + latency)
    then skipped
    else if ltb v.end_time (sealed_at + 10)
    then abandoned onion_keys
    else sends onions onion_keys

-- `runRound`. `verify` checks the signing message of the announced settings, `seal` makes an onion
-- for the announced keys and the round's nonce, `outgoing` is what the handler gives.
unfoldable pub run_round :
    (RoundSettings → Bytes → Bytes → Bool)
    → (RoundSettings → Bytes → Bytes → Bytes × List Bytes)
    → List DeadDropMessage
    → ℕ
    → ℕ
    → ℕ
    → SignedConfig
    → NewRound
    → Ran
unfolding verify_all seal_all forward_nonce
run_round verify seal outgoing latency now sealed_at conf v =
    run_verified (seal v.mix_settings (forward_nonce v.round)) outgoing latency now sealed_at v
      (verify_all (verify v.mix_settings) conf.mix_servers v.mix_signatures)

-- The keys that a run leaves in its round, unless that is gone by then.
abbrev pub keys_left : Ran → Option (List (List Bytes))
keys_left unverified = none
keys_left panicked = none
keys_left skipped = none
keys_left (abandoned keys) = some keys
keys_left (sends onions keys) = some keys

unfoldable pub leave_keys : Client → ℕ → Ran → Client
leave_keys c round ran = elim (lookup round c.rounds) [
  | none ↦ c
  | some st ↦ elim (keys_left ran) [
    | none ↦ c
    | some keys ↦ record c { rounds = insert round (record st { onion_keys = some keys }) c.rounds }
  ]
]

-- The loop of `openReplyOnion`: an onion of a wrong size, or one that does not open, gives nil.
unfoldable pub open_all :
    (Bytes → List Bytes → Option Bytes)
    → ℕ
    → ℕ
    → List Bytes
    → List (List Bytes)
    → List (Option Bytes) × List Event
open_all open_onion round size [] keys = ([], [])
open_all open_onion round size (onion ∷ onions) [] = ([], [])
open_all open_onion round size (onion ∷ onions) (ks ∷ keys) =
    let (msgs, events) = open_all open_onion round size onions keys in
    let msg = open_onion onion ks in
    if length onion == size
    then (msg ∷ msgs, elim msg [ none ↦ failed round ∷ events | some m ↦ events ])
    else (none ∷ msgs, failed round ∷ events)

-- `convo.SizeEncryptedMessageBody + len(MixServers)*box.Overhead`.
abbrev pub reply_onion_size : SignedConfig → ℕ
reply_onion_size conf = 256 + length conf.mix_servers * 16

abbrev pub open_found :
    (Bytes → List Bytes → Option Bytes)
    → Client
    → ℕ
    → List Bytes
    → Option ClientRound
    → Client × List Event
open_found open_onion c round onions none = (c, failed round ∷ [])
open_found open_onion c round onions (some st) = elim st.onion_keys [
  | none ↦ (c, failed round ∷ [])
  | some keys ↦
      let (msgs, events) = open_all open_onion round (reply_onion_size st.config) onions keys in
      if length keys == length onions
      then (record c { rounds = delete round c.rounds }, events ++ (replies round msgs ∷ []))
      else (c, failed round ∷ [])
]

-- `openReplyOnion`, with `onionbox.Open` for a nonce.
unfoldable pub open_reply_onion :
    (Bytes → Bytes → List Bytes → Option Bytes) → Client → ℕ → List Bytes → Client × List Event
unfolding open_all backward_nonce
open_reply_onion open_onion c round onions =
    open_found (open_onion (backward_nonce round)) c round onions (lookup round c.rounds)
