-- ===== src/Coordinator/Gathering.antt =====
-- Which onions a round gathers between its announcement and its deadline.
use mathlib.Core.List.{append-nil, append_assoc}
use gjallarhorn.Prelude.{
  ℕ, ◌≡◌, refl, sym, ap, ◌∙◌, Bool, true, false, List, [], ◌∷◌, ◌++◌, Option, none, some,
  if◌then◌else◌, ◌==◌, arith, Bool-cases, inl, inr, nat_eq,
}
use gjallarhorn.Prelude.Bytes.{Bytes}
use gjallarhorn.Prelude.Maps.{lookup, insert, lookup-insert, lookup-insert_same}
use gjallarhorn.Mixnet.Settings.{RoundSettings, PublicServerConfig}
use gjallarhorn.Coordinator.{
  OnionBundle, Round, Coordinator, add_bundle, incoming_onion, incoming_found, finish_round,
  mix_onions, incoming_tested, start_round, NewRound, SignedConfig,
}

-- An onion message on its way: its connection, its round, its onions.
pub record OnionMsg : Type 0 where
  pub conn : ℕ
  pub round : ℕ
  pub onions : List Bytes

-- The server after it has handled messages in turn.
abbrev pub receive_messages : Coordinator → List OnionMsg → Coordinator
receive_messages srv [] = srv
receive_messages srv (m ∷ ms) = receive_messages (incoming_onion srv m.conn m.round m.onions).0 ms

-- The bundles of the messages for one round, in order.
unfoldable pub bundles_for : ℕ → List OnionMsg → List OnionBundle
bundles_for round [] = []
bundles_for round (m ∷ ms) =
    if m.round == round
    then record { sender = m.conn; onions = m.onions } ∷ bundles_for round ms
    else bundles_for round ms

module _ (round : ℕ) where
  -- The round is there, open, and holds these bundles.
  pub record Holds (srv : Coordinator) (bundles : List OnionBundle) : Type 0 where
    pub st : Round
    pub there : lookup round srv.rounds ≡ some st
    pub opened : st.is_open ≡ true
    pub running : srv.closed ≡ false
    pub bundles_of : st.onions ≡ bundles

  incoming_onion-open :
      (srv : Coordinator) (c : ℕ) (onions : List Bytes) (st : Round)
      → lookup round srv.rounds ≡ some st
      → st.is_open ≡ true
      → (incoming_onion srv c round onions).0
        ≡ record srv { rounds = insert round (add_bundle c onions st) srv.rounds }
  unfolding incoming_onion
  incoming_onion-open srv c onions st there opened =
      ap (λ o. (incoming_found srv c round onions o).0) there
      ∙ ap (λ b. (incoming_tested srv c round onions st b).0) opened

  same_round :
      (srv : Coordinator) (c : ℕ) (onions : List Bytes) {bundles : List OnionBundle}
      → Holds srv bundles
      → Holds
          (incoming_onion srv c round onions).0
          (bundles ++ (record { sender = c; onions = onions } ∷ []))
  same_round srv c onions {bundles} h =
      rw (incoming_onion-open srv c onions h.st h.there h.opened) (record {
        st = add_bundle c onions h.st;
        there = lookup-insert_same round (add_bundle c onions h.st) srv.rounds;
        opened = h.opened;
        running = h.running;
        bundles_of = rw h.bundles_of;
      })

  other_round :
      (srv : Coordinator) (c r : ℕ) (onions : List Bytes) {bundles : List OnionBundle}
      → (r == round) ≡ false
      → Holds srv bundles
      → Holds (incoming_onion srv c r onions).0 bundles
  unfolding incoming_onion
  other_round srv c r onions {bundles} apart h = found (lookup r srv.rounds)
    where
      added : (st : Round) → Holds (record srv { rounds = insert r st srv.rounds }) bundles
      added st = record {
        st = h.st;
        there = lookup-insert r round st srv.rounds ∙ rw apart h.there;
        opened = h.opened;
        running = h.running;
        bundles_of = h.bundles_of;
      }

      tested : (b : Bool) (st : Round) → Holds (incoming_tested srv c r onions st b).0 bundles
      tested true st = added (add_bundle c onions st)
      tested false st = h

      found : (o : Option Round) → Holds (incoming_found srv c r onions o).0 bundles
      found none = h
      found (some st) = tested st.is_open st

  start_round-Holds :
      (start : List PublicServerConfig → ℕ → Option (RoundSettings × List Bytes))
      (srv : Coordinator) (deadline : ℕ) (conf : SignedConfig) (settings : RoundSettings)
      (sigs : List Bytes)
      → srv.fresh_config ≡ true
      → srv.latest_config ≡ some conf
      → start conf.mix_servers round ≡ some (settings, sigs)
      → srv.closed ≡ false
      → Holds (start_round start srv round deadline).0 []
  unfolding start_round
  start_round-Holds start srv deadline conf settings sigs fresh latest started running =
      let info : NewRound = record {
        round = round;
        config_hash = conf.hash;
        mix_settings = settings;
        mix_signatures = sigs;
        end_time = deadline;
      } in
      let st : Round = record { round_info = info; is_open = true; onions = [] } in
      rw (start_round, fresh, latest, started)
        (record {
          st = st;
          there = lookup-insert_same round st srv.rounds;
          opened = refl;
          running = running;
          bundles_of = refl;
        })

  receive_messages-Holds :
      (srv : Coordinator) (ms : List OnionMsg) {bundles : List OnionBundle}
      → Holds srv bundles
      → Holds (receive_messages srv ms) (bundles ++ bundles_for round ms)
  unfolding bundles_for
  receive_messages-Holds srv [] {bundles} h = rw (append-nil bundles) h
  receive_messages-Holds srv (m ∷ ms) {bundles} h = elim (Bool-cases (m.round == round)) [
    | inl same ↦
        let e : m.round ≡ round = ground arith in
        let b : OnionBundle = record { sender = m.conn; onions = m.onions } in
        rw (same, sym (append_assoc bundles (b ∷ []) (bundles_for round ms)))
          (receive_messages-Holds (incoming_onion srv m.conn m.round m.onions).0 ms
            (rw e (same_round srv m.conn m.onions h)))
    | inr other ↦ rw other (
        receive_messages-Holds (incoming_onion srv m.conn m.round m.onions).0 ms
          (other_round srv m.conn m.round m.onions other h))
  ]

  -- A round that was announced and whose deadline comes before a shutdown mixes exactly the bundles
  -- of the messages for it, in the order in which they came, whatever came for other rounds.
  pub finish_round-mixes :
      (start : List PublicServerConfig → ℕ → Option (RoundSettings × List Bytes))
      (run : List Bytes → Option (List Bytes)) (srv : Coordinator) (deadline : ℕ)
      (conf : SignedConfig) (settings : RoundSettings) (sigs : List Bytes) (ms : List OnionMsg)
      → srv.fresh_config ≡ true
      → srv.latest_config ≡ some conf
      → start conf.mix_servers round ≡ some (settings, sigs)
      → srv.closed ≡ false
      → (finish_round run (receive_messages (start_round start srv round deadline).0 ms) round).1
        ≡ mix_onions run round (bundles_for round ms)
  unfolding finish_round
  finish_round-mixes start run srv deadline conf settings sigs ms fresh latest started running =
      let h =
        receive_messages-Holds (start_round start srv round deadline).0 ms
          (start_round-Holds start srv deadline conf settings sigs fresh latest started running) in
      rw (finish_round, h.there, h.running, h.bundles_of)
