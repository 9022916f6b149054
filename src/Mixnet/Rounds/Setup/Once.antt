-- ===== src/Mixnet/Rounds/Setup/Once.antt =====
-- A server commits itself to one onion key and signs one set of settings for a round.
use mathlib.Core.Option.{none-ne-some}
use gjallarhorn.Prelude.{
  ℕ, ◌≡◌, refl, sym, ap, ◌∙◌, Option, none, some, some_inj, Option-cases, inl, inr,
}
use gjallarhorn.Prelude.Bytes.{Bytes, bytes_eq}
use gjallarhorn.Prelude.Maps.{lookup, insert, lookup-insert_same}
use gjallarhorn.Mixnet.Settings.{RoundSettings, SettingsProto, settings_from_proto, read_keys}
use gjallarhorn.Mixnet.Rounds.{
  RpcError, Outcome, responds, fails, panics, Service, RoundState, Server, service_round_eq,
  get_round, Peer, auth,
}
use gjallarhorn.Mixnet.Rounds.Setup.{set_round_settings, set_found, sign_settings, key_error}

abbrev pub Success : Server × Outcome Bytes → Server → Bytes → Type 0
Success r srv b = r ≡ (srv, responds b)

responded : {s s' : Server} {b b' : Bytes} → Success (s, responds b) s' b' → (s' ≡ s) × (b' ≡ b)
responded {s} {s'} {b} {b'} h =
    let out : Path (Outcome Bytes) (responds b) (responds b') = ap (λ r. r.1) h in
    let same : b' ≡ b = cc in (sym (ap (λ r. r.0) h), same)

failed {ℓ} : {A : Type ℓ} {s s' : Server} {e : RpcError} {b : Bytes} → Success (s, fails e) s' b → A
failed {s} {s'} {e} {b} h =
    let out : Path (Outcome Bytes) (fails e) (responds b) = ap (λ r. r.1) h in
    let bad : ⊥ = cc in absurd bad

panicked {ℓ} : {A : Type ℓ} {s s' : Server} {b : Bytes} → Success (s, panics) s' b → A
panicked {s} {s'} {b} h =
    let out : Path (Outcome Bytes) panics (responds b) = ap (λ r. r.1) h in
    let bad : ⊥ = cc in absurd bad

waited {ℓ} : {A : Type ℓ} {s s' : Server} {b : Bytes} → Success (s, Outcome.waits) s' b → A
waited {s} {s'} {b} h =
    let out : Path (Outcome Bytes) Outcome.waits (responds b) = ap (λ r. r.1) h in
    let bad : ⊥ = cc in absurd bad

pub get_round-inserted :
    (srv : Server) (service : Bytes) (round : ℕ) {st : RoundState}
    → get_round (record srv { rounds = insert (service, round) st srv.rounds }) service round
      ≡ some st
unfolding get_round
get_round-inserted srv service round {st} = lookup-insert_same (service, round) st srv.rounds

-- What a successful `SetRoundSettings` has found on its way.
record Found (sign : RoundSettings → Bytes) (srv : Server) (req : SettingsProto) (srv' : Server)
    (sig : Bytes) : Type 0 where
  pub st : RoundState
  pub service : Service
  pub settings : RoundSettings
  pub round : get_round srv req.service req.round ≡ some st
  pub same_service : settings.service ≡ req.service
  pub same_round : settings.round ≡ req.round
  pub answer : set_found srv service st settings sign st.settings_signature ≡ (srv', responds sig)

module _ (sign : RoundSettings → Bytes) (srv : Server) (req : SettingsProto) where
  parsed_fields :
      {p : RoundSettings}
      → settings_from_proto req ≡ some p
      → (p.service ≡ req.service) × (p.round ≡ req.round)
  unfolding settings_from_proto
  parsed_fields {p} h = elim (Option-cases (read_keys req.onion_keys)) [
    | inl e ↦ absurd (none-ne-some p (rw (settings_from_proto, e) at h))
    | inr (keys, e) ↦
        let same = some_inj (rw (settings_from_proto, e) at h) in
        (sym (ap (λ s. s.service) same), sym (ap (λ s. s.round) same))
  ]

  Success-Found :
      (peer : Peer) {srv' : Server} {sig : Bytes}
      → Success (set_round_settings sign srv peer req) srv' sig
      → Found sign srv req srv' sig
  unfolding set_round_settings
  Success-Found peer {srv'} {sig} h = elim (Option-cases (auth srv.coordinator_key peer)) [
    | inr (e, denied) ↦ failed (rw (set_round_settings, denied) at h)
    | inl allowed ↦ elim (Option-cases (settings_from_proto req)) [
      | inl bad ↦ failed (rw (set_round_settings, allowed, bad) at h)
      | inr (p, good) ↦
          let (s, r) = parsed_fields good in
          elim (Option-cases (get_round srv p.service p.round)) [
            | inl missing ↦ failed (rw (set_round_settings, allowed, good, missing) at h)
            | inr (st, there) ↦
                let h1 = rw (set_round_settings, allowed, good, there) at h in
                elim (Option-cases (lookup p.service srv.services)) [
                  | inl unknown ↦ panicked (rw unknown at h1)
                  | inr (service, known) ↦
                      let h2 = rw known at h1 in
                      elim (Option-cases (service.parse_service_data p.raw_service_data)) [
                        | inl bad_data ↦ failed (rw bad_data at h2)
                        | inr (d, good_data) ↦ record {
                          st = st;
                          service = service;
                          settings = record p { service_data = some d };
                          round = rw (s, r) at there;
                          same_service = s;
                          same_round = r;
                          answer = rw good_data at h2;
                        }
                      ]
                ]
          ]
    ]
  ]

  -- The round after a success holds the signature.
  signed_stores :
      {srv' : Server} {sig : Bytes}
      → (f : Found sign srv req srv' sig)
      → (st : RoundState) × (get_round srv' req.service req.round ≡ some st)
        × (st.settings_signature ≡ some sig)
  signed_stores {srv'} {sig} f = found f.st.settings_signature refl f.answer
    where
      found :
          (o : Option Bytes)
          → f.st.settings_signature ≡ o
          → set_found srv f.service f.st f.settings sign o ≡ (srv', responds sig)
          → (st : RoundState) × (get_round srv' req.service req.round ≡ some st)
            × (st.settings_signature ≡ some sig)
      found (some old) e h = let (same, b) = responded h in (f.st, rw same f.round, rw (e, b))
      found none e h = signed (key_error f.st f.settings) h
        where
          signed :
              (o : Outcome (Unit {0}))
              → sign_settings srv f.service f.st f.settings (sign f.settings) o
                ≡ (srv', responds sig)
              → (st : RoundState) × (get_round srv' req.service req.round ≡ some st)
                × (st.settings_signature ≡ some sig)
          signed (fails err) h = failed h
          signed panics h = panicked h
          signed Outcome.waits h = waited h
          signed (responds u) h =
              let (same, b) = responded h in
              (
                record f.st {
                  settings = some f.settings;
                  settings_signature = some (sign f.settings);
                  noise = some (f.service.generate_noise f.settings f.st.my_pos);
                },
                rw (same, sym f.same_service, sym f.same_round)
                    (get_round-inserted srv f.settings.service f.settings.round),
                rw b,
              )

-- The round of a success holds the signature afterwards.
pub set_round_settings-stores :
    (sign : RoundSettings → Bytes) (srv srv' : Server) (peer : Peer) (req : SettingsProto)
    (sig : Bytes)
    → set_round_settings sign srv peer req ≡ (srv', responds sig)
    → (st : RoundState) × (get_round srv' req.service req.round ≡ some st)
      × (st.settings_signature ≡ some sig)
set_round_settings-stores sign srv srv' peer req sig h =
    signed_stores sign srv req (Success-Found sign srv req peer h)

-- In a round that holds a signature, a success gives it and changes nothing.
pub signed_once :
    (sign : RoundSettings → Bytes) (srv srv' : Server) (peer : Peer) (req : SettingsProto)
    (sig sig' : Bytes)
    → (st : RoundState) × (get_round srv req.service req.round ≡ some st)
      × (st.settings_signature ≡ some sig)
    → set_round_settings sign srv peer req ≡ (srv', responds sig')
    → (sig' ≡ sig) × (srv' ≡ srv)
signed_once sign srv srv' peer req sig sig' (st, there, signature) again =
    let f = Success-Found sign srv req peer again in
    let same : f.st ≡ st = some_inj (sym f.round ∙ there) in
    let answer = rw (same, signature) at f.answer in let (s, b) = responded answer in (b, s)
