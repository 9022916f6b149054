-- ===== src/Client/Runs/Told.antt =====
-- What the client does when it is told of a round, in every state that it comes to.
use mathlib.Core.Path.{subst}
use mathlib.Core.Option.{none-ne-some}
use gjallarhorn.Prelude.{
  ℕ, ◌+◌, ◌≤◌, ◌≡◌, refl, sym, ap, ◌∙◌, Bool, true, false, List, [], ◌∷◌, Option, none, some,
  some_inj, if◌then◌else◌, ltb, arith, Bool-cases, inl, inr, nat_eq,
}
use gjallarhorn.Prelude.Bytes.{Bytes, bytes_equal, bytes_equal_iff}
use gjallarhorn.Prelude.Maps.{Map, lookup}
use gjallarhorn.Coordinator.{NewRound, SignedConfig}
use gjallarhorn.Client.{
  ClientRound, Client, Event, failed, run, set_latest_round, fetched, announced, new_convo_round,
}
use gjallarhorn.Client.Runs.{
  IsSynced, Started, Runs, Good, GivesAsked, Reached, fresh, told, leaves, opens,
}
use gjallarhorn.Client.Runs.Kept.{
  no_run, no_error, add_round-Good, leave_keys-IsSynced, open_reply_onion-IsSynced,
}

module _ (fetch : SignedConfig → Bytes → Option (List SignedConfig)) (law : GivesAsked fetch) where
  silent :
      (c : Client) (v : NewRound) (b : Bool)
      → IsSynced c
      → Good v (c, if b then [] else failed v.round ∷ [])
  silent c v true s = (s, (λ (i, h). absurd (none-ne-some (run v.round) h)))
  silent c v false s = (s, (λ r. absurd (no_run v.round v.round r)))

  fetched-Good :
      (c : Client) (v : NewRound) (o : Option (List SignedConfig)) (r : Client × List Event)
      → fetch c.convo_config v.config_hash ≡ o
      → IsSynced c
      → v.round ≤ c.latest_round
      → fetched c v o ≡ some r
      → Good v r
  fetched-Good c v none r e s late h = subst (Good v) (some_inj h) (silent c v false s)
  fetched-Good c v (some []) r e s late h = absurd (none-ne-some r h)
  fetched-Good c v (some (conf ∷ configs)) r e s late h =
      let asked = law c.convo_config conf v.config_hash configs e in
      let c' = record c { convo_config = conf; convo_config_hash = v.config_hash } in
      let good =
        add_round-Good c' v conf (record { current = s.current; agreed = asked }) late asked in
      subst (Good v) (some_inj h) (good.0, (λ runs. good.1))

  announced-Good :
      (c : Client) (v : NewRound) (o : Option ClientRound) (r : Client × List Event)
      → IsSynced c
      → v.round ≤ c.latest_round
      → announced fetch c v o ≡ some r
      → Good v r
  announced-Good c v (some st) r s late h =
      subst (Good v) (some_inj h) (silent c v (bytes_equal st.config.hash v.config_hash) s)
  announced-Good c v none r s late h =
      elim (Bool-cases (bytes_equal v.config_hash c.convo_config_hash)) [
        | inl known ↦
            let same = (bytes_equal_iff v.config_hash c.convo_config_hash).0 known in
            let good = add_round-Good c v c.convo_config s late (s.agreed ∙ sym same) in
            subst (Good v) (some_inj (rw known at h)) (good.0, (λ runs. good.1))
        | inr other ↦
            fetched-Good c v (fetch c.convo_config v.config_hash) r refl s late (rw other at h)
      ]

  later :
      (c : Client) (r : ℕ)
      → IsSynced c
      → IsSynced (set_latest_round r c) × (r ≤ (set_latest_round r c).latest_round)
  unfolding set_latest_round
  later c r s = elim (Bool-cases (ltb c.latest_round r)) [
    | inl new ↦ rw new (
      record { current = λ k st h. let old = s.current k st h in ground arith; agreed = s.agreed },
      omega arith,
    )
    | inr old ↦ rw old (s, ground arith)
  ]

  new_convo_round-Good :
      (now : ℕ) (c : Client) (v : NewRound) (r : Client × List Event)
      → IsSynced c
      → new_convo_round fetch now c v ≡ some r
      → Good v r
  unfolding new_convo_round
  new_convo_round-Good now c v r s h =
      let (s', late) = later c v.round s in
      elim (Bool-cases (ltb v.end_time (now + 20))) [
        | inl over ↦
            subst (Good v) (some_inj (rw (new_convo_round, over) at h))
              (s', (λ runs. absurd (no_error v.round v.round runs)))
        | inr early ↦
            announced-Good (set_latest_round v.round c) v
              (lookup v.round (set_latest_round v.round c).rounds) r s' late
              (rw (new_convo_round, early) at h)
      ]

  Reached-IsSynced : {c : Client} → Reached fetch c → IsSynced c
  unfolding lookup
  Reached-IsSynced (fresh c none_yet agreed) = record {
    current = λ r st h.
        absurd (none-ne-some st (ap (λ (m : Map ℕ ClientRound). lookup r m) (sym none_yet) ∙ h));
    agreed = agreed;
  }
  Reached-IsSynced (told {c} now v {c'} {events} r h) =
      (new_convo_round-Good now c v (c', events) (Reached-IsSynced r) h).0
  Reached-IsSynced (leaves {c} round ran r) = leave_keys-IsSynced c round ran (Reached-IsSynced r)
  Reached-IsSynced (opens {c} open_onion round onions r) =
      open_reply_onion-IsSynced open_onion c round onions (Reached-IsSynced r)

  -- In every state that a client comes to, by being told of rounds, by the goroutines of rounds and
  -- by replies in any order, its rounds are not after its latest one, and when it is
  -- told of a round and runs it, the round is then in its table, with the configuration whose hash
  -- was announced and no keys, if the fetching of configurations gives what it is asked for.
  pub Reached-Started :
      {c : Client}
      → Reached fetch c
      → IsSynced c
        × ((now : ℕ) (v : NewRound) (c' : Client) (events : List Event)
            → new_convo_round fetch now c v ≡ some (c', events)
            → Runs v.round events
            → Started v c')
  Reached-Started {c} r =
      let s = Reached-IsSynced r in
      (s, (λ now v c' events h runs. (new_convo_round-Good now c v (c', events) s h).1 runs))
