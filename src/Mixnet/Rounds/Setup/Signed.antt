-- ===== src/Mixnet/Rounds/Setup/Signed.antt =====
-- A signed round stays signed, whatever the coordinator asks for until the round is deleted.
use mathlib.Core.Path.{subst}
use mathlib.Core.Option.{none-ne-some}
use gjallarhorn.Prelude.{
  ℕ, ◌≡◌, refl, sym, ap, ◌∙◌, false, Option, none, some, some_inj, List, Option-cases, Bool-cases,
  inl, inr,
}
use gjallarhorn.Prelude.Bytes.{Bytes, bytes_eq}
use gjallarhorn.Prelude.Maps.{lookup, insert, delete, lookup-insert, lookup-delete}
use gjallarhorn.Mixnet.Settings.{
  RoundSettings, SettingsProto, settings_from_proto, PublicServerConfig,
}
use gjallarhorn.Mixnet.Rounds.{
  Outcome, responds, fails, panics, waits, Service, RoundState, Server, same_round, same_round_iff,
  service_round_eq, get_round, Peer, auth, auth_prev,
}
use gjallarhorn.Mixnet.Rounds.Setup.{
  find_from, fresh_state, start_round, new_round, key_error, sign_settings, set_found,
  set_round_settings,
}
use gjallarhorn.Mixnet.Rounds.Closing.{delete_round}

module _ (name : Bytes) (round : ℕ) (sig : Bytes) where
  abbrev pub HasSigned : Server → Type 0
  HasSigned srv =
      (st : RoundState) × (get_round srv name round ≡ some st) × (st.settings_signature ≡ some sig)

  -- A round that has not been signed may be put in.
  insert-HasSigned :
      (srv : Server) (other : Bytes) (number : ℕ) (v : RoundState)
      → HasSigned srv
      → ((st : RoundState) → get_round srv other number ≡ some st → st.settings_signature ≡ none)
      → HasSigned (record srv { rounds = insert (other, number) v srv.rounds })
  unfolding get_round
  insert-HasSigned srv other number v (st, there, signed) unsigned =
      elim (Bool-cases (same_round (other, number) (name, round))) [
        | inl same ↦
            let e = (same_round_iff (other, number) (name, round)).0 same in
            let here = subst (λ k. lookup k srv.rounds ≡ some st) (sym e) there in
            absurd (none-ne-some sig (sym (unsigned st here) ∙ signed))
        | inr differ ↦
            (st, lookup-insert (other, number) (name, round) v srv.rounds ∙ rw differ there, signed)
      ]

  start_round-HasSigned :
      (srv : Server) (service : Service) (other : Bytes) (number : ℕ)
      (chain : List PublicServerConfig) (public private : Bytes) (o : Option (Option ℕ))
      → HasSigned srv
      → get_round srv other number ≡ none
      → HasSigned (start_round srv service other number chain public private o).0
  start_round-HasSigned srv service other number chain public private none h free = h
  start_round-HasSigned srv service other number chain public private (some none) h free = h
  start_round-HasSigned srv service other number chain public private (some (some pos)) h free =
      insert-HasSigned srv other number (fresh_state service chain pos public private) h
        (λ st there. absurd (none-ne-some st (sym free ∙ there)))

  pub new_round-HasSigned :
      (srv : Server) (peer : Peer) (other : Bytes) (number : ℕ) (chain : List PublicServerConfig)
      (public private : Bytes)
      → HasSigned srv
      → HasSigned (new_round srv peer other number chain public private).0
  unfolding new_round get_round
  new_round-HasSigned srv peer other number chain public private h =
      elim (Option-cases (auth srv.coordinator_key peer)) [
        | inr (e, denied) ↦ rw (new_round, denied) h
        | inl allowed ↦ elim (Option-cases (lookup other srv.services)) [
          | inl unknown ↦ rw (new_round, allowed, unknown) h
          | inr (service, known) ↦ elim (Option-cases (lookup (other, number) srv.rounds)) [
            | inr (st, there) ↦ rw (new_round, allowed, known, there) h
            | inl free ↦
                rw (new_round, allowed, known, free)
                  (start_round-HasSigned srv service other number chain public private
                    (find_from srv.signing_public 0 none chain) h free)
          ]
        ]
      ]

  sign_settings-HasSigned :
      (srv : Server) (service : Service) (st : RoundState) (settings : RoundSettings) (new : Bytes)
      (o : Outcome (Unit {0}))
      → HasSigned srv
      → get_round srv settings.service settings.round ≡ some st
      → st.settings_signature ≡ none
      → HasSigned (sign_settings srv service st settings new o).0
  sign_settings-HasSigned srv service st settings new (fails e) h there unsigned = h
  sign_settings-HasSigned srv service st settings new panics h there unsigned = h
  sign_settings-HasSigned srv service st settings new Outcome.waits h there unsigned = h
  sign_settings-HasSigned srv service st settings new (responds u) h there unsigned =
      insert-HasSigned srv settings.service settings.round
        (record st {
          settings = some settings;
          settings_signature = some new;
          noise = some (service.generate_noise settings st.my_pos);
        })
        h
        (λ st' here.
          let same : st ≡ st' = some_inj (sym there ∙ here) in
          ap (λ (s : RoundState). s.settings_signature) (sym same) ∙ unsigned)

  set_found-HasSigned :
      (sign : RoundSettings → Bytes) (srv : Server) (service : Service) (st : RoundState)
      (settings : RoundSettings) (o : Option Bytes)
      → st.settings_signature ≡ o
      → HasSigned srv
      → get_round srv settings.service settings.round ≡ some st
      → HasSigned (set_found srv service st settings sign o).0
  set_found-HasSigned sign srv service st settings (some old) e h there = h
  set_found-HasSigned sign srv service st settings none e h there =
      sign_settings-HasSigned srv service st settings (sign settings) (key_error st settings) h
        there e

  pub set_round_settings-HasSigned :
      (sign : RoundSettings → Bytes) (srv : Server) (peer : Peer) (req : SettingsProto)
      → HasSigned srv
      → HasSigned (set_round_settings sign srv peer req).0
  unfolding set_round_settings
  set_round_settings-HasSigned sign srv peer req h =
      elim (Option-cases (auth srv.coordinator_key peer)) [
        | inr (e, denied) ↦ rw (set_round_settings, denied) h
        | inl allowed ↦ elim (Option-cases (settings_from_proto req)) [
          | inl bad ↦ rw (set_round_settings, allowed, bad) h
          | inr (p, good) ↦ elim (Option-cases (get_round srv p.service p.round)) [
            | inl missing ↦ rw (set_round_settings, allowed, good, missing) h
            | inr (st, there) ↦ elim (Option-cases (lookup p.service srv.services)) [
              | inl unknown ↦ rw (set_round_settings, allowed, good, there, unknown) h
              | inr (service, known) ↦
                  elim (Option-cases (service.parse_service_data p.raw_service_data)) [
                    | inl bad_data ↦
                        rw (set_round_settings, allowed, good, there, known, bad_data) h
                    | inr (d, good_data) ↦
                        rw (set_round_settings, allowed, good, there, known, good_data)
                          (set_found-HasSigned sign srv service st
                            (record p { service_data = some d }) st.settings_signature refl h there)
                  ]
            ]
          ]
        ]
      ]

  pub delete_round-HasSigned :
      (srv : Server) (peer : Peer) (other : Bytes) (number : ℕ)
      → same_round (other, number) (name, round) ≡ false
      → HasSigned srv
      → HasSigned (delete_round srv peer other number).0
  unfolding delete_round get_round
  delete_round-HasSigned srv peer other number differ (st, there, signed) =
      elim (Option-cases (get_round srv other number)) [
        | inl missing ↦ rw (delete_round, missing) (st, there, signed)
        | inr (old, found) ↦ rw (delete_round, found) (gone (auth_prev srv peer old))
      ]
    where
      gone :
          (o : Outcome (Unit {0}))
          → HasSigned
              (elim o as (λ x. Server × Outcome (Unit {0})) [
                | fails e ↦ (srv, fails e)
                | panics ↦ (srv, panics)
                | waits ↦ (srv, waits)
                | responds u ↦
                    (record srv { rounds = delete (other, number) srv.rounds }, responds tt)
              ]).0
      gone (fails e) = (st, there, signed)
      gone panics = (st, there, signed)
      gone Outcome.waits = (st, there, signed)
      gone (responds u) =
          (st, lookup-delete (other, number) (name, round) srv.rounds ∙ rw differ there, signed)
