-- ===== src/Mixnet/Starting/Started.antt =====
-- The first phase: every server makes its key for the round.
use gjallarhorn.Prelude.{
  ℕ, suc, ◌≡◌, refl, sym, ap, ◌∙◌, List, [], ◌∷◌, none, some, length, map, copy, copy_all,
}
use gjallarhorn.Prelude.Bytes.{Bytes, zeros, length-zeros, bytes_eq}
use gjallarhorn.Prelude.Maps.{lookup, insert}
use gjallarhorn.Mixnet.Settings.{PublicServerConfig}
use gjallarhorn.Mixnet.Rounds.{
  responds, Service, RoundState, Server, service_round_eq, get_round, auth,
}
use gjallarhorn.Mixnet.Rounds.Setup.{find_from, fresh_state, new_round}
use gjallarhorn.Mixnet.Rounds.Setup.Once.{get_round-inserted}
use gjallarhorn.Mixnet.Starting.{Node, start_all}

-- What holds at every place of a list, from a number on.
abbrev pub AllAt {ℓ κ} : {A : Type ℓ} → (ℕ → A → Type κ) → ℕ → List A → Type κ
AllAt P i [] = Unit
AllAt P i (x ∷ xs) = P i x × AllAt P (suc i) xs

module _ (name : Bytes) (round : ℕ) (raw : Bytes) (chain : List PublicServerConfig) where
  -- A server that lets the coordinator in, knows the service and its data, is at its place of the
  -- chain, and has no such round yet.
  pub record IsReady (i : ℕ) (n : Node) : Type 0 where
    pub lets_in : auth n.server.coordinator_key n.peer ≡ none
    pub service : Service
    pub knows : lookup name n.server.services ≡ some service
    pub parsed : Bytes
    pub parses : service.parse_service_data raw ≡ some parsed
    pub none_yet : get_round n.server name round ≡ none
    pub place : find_from n.server.signing_public 0 none chain ≡ some (some i)
    pub key_size : length n.public ≡ 32

  -- A server with its key for the round, and no settings yet.
  pub record IsStarted (i : ℕ) (n : Node) : Type 0 where
    pub lets_in : auth n.server.coordinator_key n.peer ≡ none
    pub service : Service
    pub knows : lookup name n.server.services ≡ some service
    pub parsed : Bytes
    pub parses : service.parse_service_data raw ≡ some parsed
    pub st : RoundState
    pub begun : get_round n.server name round ≡ some st
    pub unsigned : st.settings_signature ≡ none
    pub same_chain : st.chain ≡ chain
    pub place : st.my_pos ≡ i
    pub keyed : st.onion_public_key ≡ n.public

  started :
      (i : ℕ) (n : Node)
      → IsReady i n
      → (srv : Server) × (new_round n.server n.peer name round chain n.public n.private
          ≡ (srv, responds n.public))
        × IsStarted i (record n { server = srv })
  unfolding new_round get_round
  started i n r =
      let st = fresh_state r.service chain i n.public n.private in
      let srv : Server = record n.server { rounds = insert (name, round) st n.server.rounds } in
      (
        srv,
        rw (new_round, r.lets_in, r.knows, r.none_yet, r.place),
        record {
          lets_in = r.lets_in;
          service = r.service;
          knows = r.knows;
          parsed = r.parsed;
          parses = r.parses;
          st = st;
          begun = get_round-inserted n.server name round {st = st};
          unsigned = refl;
          same_chain = refl;
          place = refl;
          keyed = refl;
        },
      )

  pub start_all-IsStarted :
      (i : ℕ) (ns : List Node)
      → AllAt IsReady i ns
      → (ns' : List Node) × (start_all name round chain ns
          ≡ (ns', responds (map (λ (n : Node). n.public) ns)))
        × AllAt IsStarted i ns'
        × (map (λ (n : Node). n.public) ns' ≡ map (λ (n : Node). n.public) ns)
        × (map (λ (n : Node). n.sign) ns' ≡ map (λ (n : Node). n.sign) ns)
  unfolding start_all
  start_all-IsStarted i [] all = ([], refl, tt, refl, refl)
  start_all-IsStarted i (n ∷ ns) (r, all) =
      let (srv, one, s) = started i n r in
      let (ns', others, t, same, signs) = start_all-IsStarted (suc i) ns all in
      let whole : copy (zeros 32) n.public ≡ n.public =
        copy_all (zeros 32) n.public (r.key_size ∙ sym (length-zeros 32)) in
      (
        record n { server = srv } ∷ ns',
        rw (one, others)
            (ap
              (λ k.
                (record n { server = srv } ∷ ns', responds (k ∷ map (λ (m : Node). m.public) ns)))
              whole),
        (s, t),
        ap (◌∷◌ n.public) same,
        ap (◌∷◌ n.sign) signs,
      )
