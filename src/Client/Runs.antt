-- ===== src/Client/Runs.antt =====
-- The client over many rounds: `newConvoRound`, the goroutines of `runRound` and `openReplyOnion` of
-- client.go in any order, as a step relation.
pub mod Kept
pub mod Told
mod Examples
use mathlib.Core.Path.{subst}
use mathlib.Core.Option.{none-ne-some}
use gjallarhorn.Prelude.{
  ℕ, zero, suc, ◌+◌, ◌≤◌, ◌≡◌, refl, sym, ap, ◌∙◌, Bool, true, false, List, [], ◌∷◌, Option, none,
  some, some_inj, if◌then◌else◌, ltb, ◌==◌, ==_iff, arith, length, Bool-cases, Option-cases, inl,
  inr, get_elem?, nat_eq,
}
use gjallarhorn.Prelude.Bytes.{Bytes, bytes_equal, bytes_equal_iff}
use gjallarhorn.Prelude.Maps.{
  Map, lookup, insert, delete, lookup-insert, lookup-delete, lookup-insert_same,
}
use gjallarhorn.Mixnet.Replies.{backward_nonce}
use gjallarhorn.Coordinator.{NewRound, SignedConfig}
use gjallarhorn.Client.{
  ClientRound, Client, Event, failed, run, new_config, persisted, debug_error, set_latest_round,
  add_round, fetched, announced, new_convo_round, Ran, keys_left, leave_keys, open_all, open_found,
  open_reply_onion,
}

-- Every round of the table has come before the latest one or is it, and the hash that the client
-- keeps is that of its configuration.
pub record IsSynced (c : Client) : Type 0 where
  pub current : (r : ℕ) (st : ClientRound) → lookup r c.rounds ≡ some st → r ≤ c.latest_round
  pub agreed : c.convo_config.hash ≡ c.convo_config_hash

pub record Started (v : NewRound) (c : Client) : Type 0 where
  pub st : ClientRound
  pub there : lookup v.round c.rounds ≡ some st
  pub announced_config : st.config.hash ≡ v.config_hash
  pub no_keys : st.onion_keys ≡ none

abbrev pub Runs : ℕ → List Event → Type 0
Runs r events = (i : ℕ) × (get_elem? events i ≡ some (run r))

abbrev pub Good : NewRound → Client × List Event → Type 0
Good v (c, events) = IsSynced c × (Runs v.round events → Started v c)

-- `FetchAndVerifyChain` gives, first, the configuration that it was asked for.
abbrev pub GivesAsked : (SignedConfig → Bytes → Option (List SignedConfig)) → Type 0
GivesAsked fetch =
    (from conf : SignedConfig) (hash : Bytes) (configs : List SignedConfig)
    → fetch from hash ≡ some (conf ∷ configs)
    → conf.hash ≡ hash

module _ (fetch : SignedConfig → Bytes → Option (List SignedConfig)) where
  -- A client in use, from one that has no rounds yet and whose configuration has the hash that it
  -- keeps: it is told of a round, a round's goroutine leaves its keys, or replies come in.
  pub data Reached : Client → Type 0 where
    fresh : (c : Client) → c.rounds ≡ [] → c.convo_config.hash ≡ c.convo_config_hash → Reached c
    told :
        {c : Client} (now : ℕ) (v : NewRound) {c' : Client} {events : List Event}
        → Reached c
        → new_convo_round fetch now c v ≡ some (c', events)
        → Reached c'
    leaves : {c : Client} (round : ℕ) (ran : Ran) → Reached c → Reached (leave_keys c round ran)
    opens :
        {c : Client} (open_onion : Bytes → Bytes → List Bytes → Option Bytes) (round : ℕ)
        (onions : List Bytes)
        → Reached c
        → Reached (open_reply_onion open_onion c round onions).0
