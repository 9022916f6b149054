-- ===== src/Convo/Config/Codec.antt =====
-- Which configurations of convo/config.go are valid, and that they are read back as written.
use gjallarhorn.Prelude.{
  ℕ, suc, ◌<◌, ◌≡◌, ◌≢◌, ◌↔◌, refl, ap, false, List, [], ◌∷◌, Option, none, some, if◌then◌else◌,
  ◌==◌, arith, length, map, Bool-cases, inl, inr,
}
use gjallarhorn.Prelude.Bytes.{Bytes}
use gjallarhorn.Mixnet.Settings.{PublicServerConfig}
use gjallarhorn.Convo.Config.{
  ConvoConfig, KeyAddr, ConvoV1, Checked, ok, err, ConfigError, unknown_version, v1, from_v1, Json,
  IsJson, marshal_json, unmarshal_json, validate_mixers, validate, use_latest_version,
}

-- A key of the right size and an address.
abbrev pub Reachable : Bytes → Bytes → Type 0
Reachable key address = (length key ≡ 32) × (0 < length address)

abbrev pub AllReachable : List PublicServerConfig → Type 0
AllReachable [] = Unit {0}
AllReachable (m ∷ ms) = Reachable m.key m.address × AllReachable ms

validate_mixers-AllReachable :
    (i : ℕ) (ms : List PublicServerConfig) → (validate_mixers i ms ≡ ok tt) ↔ AllReachable ms
unfolding validate_mixers
validate_mixers-AllReachable i [] = (λ h. tt, λ h. refl)
validate_mixers-AllReachable i (m ∷ ms) =
    let ih = validate_mixers-AllReachable (suc i) ms in
    elim (Bool-cases (length m.key == 32)) [
      | inr bad ↦ (λ h. let e = rw bad at h in absurd (cc), λ h. let e = h.0.0 in ground arith)
      | inl key ↦ elim (Bool-cases (length m.address == 0)) [
        | inl empty ↦
            (λ h. let e = rw (key, empty) at h in absurd (cc), λ h. let e = h.0.1 in ground arith)
        | inr full ↦ rw (key, full) (λ h. ((ground arith, ground arith), ih.0 h), λ h. ih.1 h.1)
      ]
    ]

mixers_served :
    (ms : List PublicServerConfig) (P : Type 0)
    → P
    → ((if length ms == 0 then err ConfigError.no_mix_servers else validate_mixers 0 ms) ≡ ok tt)
      ↔ (P × (ms ≢ []) × AllReachable ms)
mixers_served [] P p = (λ h. absurd (cc), λ h. absurd (h.1 refl))
mixers_served (m ∷ ms) P p =
    let some_mixer : (length (m ∷ ms) == 0) ≡ false = ground arith in
    let all = validate_mixers-AllReachable 0 (m ∷ ms) in
    rw some_mixer (λ h. (p, (λ e. cc), all.0 h), λ h. all.1 h.2)

-- `Validate` accepts exactly the configurations whose coordinator and mix servers, at least one, all
-- have a key of 32 bytes and an address.
pub validate-Reachable :
    (c : ConvoConfig)
    → (validate c ≡ ok tt) ↔ (
        Reachable c.coordinator.key c.coordinator.address
        × (c.mix_servers ≢ [])
        × AllReachable c.mix_servers)
unfolding validate
validate-Reachable c = checked c.coordinator.key c.coordinator.address c.mix_servers
  where
    checked :
        (key address : Bytes) (ms : List PublicServerConfig)
        → ((if length key == 32
              then if length address == 0
                then err ConfigError.empty_coordinator_address
                else if length ms == 0
                then err ConfigError.no_mix_servers
                else validate_mixers 0 ms
              else err ConfigError.invalid_coordinator_key)
            ≡ ok tt)
          ↔ (Reachable key address × (ms ≢ []) × AllReachable ms)
    checked key address ms = elim (Bool-cases (length key == 32)) [
      | inr bad ↦ rw bad (λ h. absurd (cc), λ h. let e = h.0.0 in ground arith)
      | inl sized ↦ elim (Bool-cases (length address == 0)) [
        | inl empty ↦ rw (sized, empty) (λ h. absurd (cc), λ h. let e = h.0.1 in ground arith)
        | inr full ↦
            rw (sized, full)
              (mixers_served ms (length key ≡ 32 × 0 < length address) (ground arith, ground arith))
      ]
    ]

map-map_id :
    (ms : List PublicServerConfig)
    → map
        (λ (srv : KeyAddr). record { key = srv.key; address = srv.address })
        (map (λ (srv : PublicServerConfig). record { key = srv.key; address = srv.address }) ms)
      ≡ ms
map-map_id [] = refl
map-map_id (m ∷ ms) = ap (◌∷◌ m) (map-map_id ms)

-- A configuration of the latest version is read back as it was written, whatever it is read into; of
-- any other version nothing is written.
pub unmarshal_json-marshal_json :
    (j : Json) (c old : ConvoConfig)
    → IsJson j (v1 (use_latest_version c))
    → ((bytes : Bytes) × (marshal_json j (use_latest_version c) ≡ ok bytes)
        × (unmarshal_json j bytes old ≡ ok (use_latest_version c)))
      × (c.version ≢ 1 → marshal_json j c ≡ err (unknown_version c.version))
unfolding marshal_json unmarshal_json v1 from_v1 use_latest_version
unmarshal_json-marshal_json j c old law = (
  (
    j.marshal_v1 c1,
    refl,
    read (j.read_version (j.marshal_v1 c1)) (j.unmarshal_v1 (j.marshal_v1 c1)) (law.version-marshal)
        (law.unmarshal-marshal),
  ),
  λ other. let e : (c.version == 1) ≡ false = ground arith in rw e,
)
  where
    c1 : ConvoV1
    c1 = v1 (use_latest_version c)

    read :
        (v : Option ℕ) (r : Option ConvoV1)
        → v ≡ some 1
        → r ≡ some c1
        → (elim v as (λ x. Checked ConvoConfig) [
          | none ↦ err ConfigError.bad_json
          | some version ↦
              if version == 1
              then elim r [ none ↦ err ConfigError.bad_json | some d ↦ ok (from_v1 d) ]
              else err (unknown_version old.version)
        ])
          ≡ ok (use_latest_version c)
    read v r e f =
        rw (e, f)
          (ap (λ ms. ok (record { version = 1; coordinator = c.coordinator; mix_servers = ms }))
            (map-map_id c.mix_servers))
