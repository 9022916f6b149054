-- ===== src/Mixnet/Starting/Signed.antt =====
-- The second phase: every server signs the settings that hold the keys of all.
use mathlib.Core.Path.{subst}
use mathlib.Core.List.{append_assoc}
use gjallarhorn.Prelude.{
  ℕ, suc, ◌≡◌, refl, sym, ap, ◌∙◌, true, List, [], ◌∷◌, ◌++◌, some, ◌==◌, ==_iff, arith, length,
  get_elem?, get_elem?-append_middle, map, length-append, length-map,
}
use gjallarhorn.Prelude.Bytes.{Bytes, bytes_equal, bytes_equal_iff}
use gjallarhorn.Prelude.Maps.{insert}
use gjallarhorn.Mixnet.Settings.{RoundSettings, settings_proto, PublicServerConfig}
use gjallarhorn.Mixnet.Settings.RoundTrip.{AllKeys, settings_from_proto-settings_proto}
use gjallarhorn.Mixnet.Rounds.{responds, RoundState, Server, service_round_eq, get_round}
use gjallarhorn.Mixnet.Rounds.Setup.{key_error, set_round_settings}
use gjallarhorn.Mixnet.Rounds.Setup.Once.{get_round-inserted}
use gjallarhorn.Mixnet.Starting.{Node, set_all, settings_for, new_round_at}
use gjallarhorn.Mixnet.Starting.Started.{AllAt, IsReady, IsStarted, start_all-IsStarted}

module _ (name : Bytes) (round : ℕ) (raw : Bytes) (keys : List Bytes) where
  -- A server at its place that has signed the settings with these keys, and has noise for them.
  pub record IsSigned (i : ℕ) (n : Node) (sig : Bytes) : Type 0 where
    pub st : RoundState
    pub parsed : Bytes
    pub noise : List Bytes
    pub kept : get_round n.server name round ≡ some st
    pub agreed :
        st.settings
        ≡ some (record (settings_for name round raw keys) { service_data = some parsed })
    pub signature : st.settings_signature ≡ some sig
    pub signs :
        n.sign (record (settings_for name round raw keys) { service_data = some parsed }) ≡ sig
    pub place : st.my_pos ≡ i
    pub own_key : get_elem? keys i ≡ some st.onion_public_key
    pub noisy : st.noise ≡ some noise

  -- Every server has, and answers with, a signature.
  abbrev pub AllSigned : ℕ → List Node → List Bytes → Type 0
  AllSigned i [] [] = Unit
  AllSigned i [] (sig ∷ sigs) = ⊥
  AllSigned i (n ∷ ns) [] = ⊥
  AllSigned i (n ∷ ns) (sig ∷ sigs) = IsSigned i n sig × AllSigned (suc i) ns sigs

  module _ (chain : List PublicServerConfig) (sized : AllKeys keys)
      (counted : length keys ≡ length chain) where
    pub signed :
        (i : ℕ) (n : Node)
        → (s : IsStarted name round raw chain i n) → get_elem? keys i ≡ some n.public
        → (srv : Server) × (sig : Bytes) × (set_round_settings n.sign n.server n.peer
              (settings_proto (settings_for name round raw keys))
            ≡ (srv, responds sig))
          × (n.sign (record (settings_for name round raw keys) { service_data = some s.parsed })
              ≡ sig)
          × IsSigned i (record n { server = srv }) sig
    unfolding set_round_settings get_round
    signed i n s here =
        let settings = record (settings_for name round raw keys) { service_data = some s.parsed } in
        let many : (length keys == length s.st.chain) ≡ true =
          (==_iff (length keys) (length s.st.chain)).1 (counted ∙ sym (ap length s.same_chain)) in
        let mine : get_elem? keys s.st.my_pos ≡ some n.public =
          ap (get_elem? keys) s.place ∙ here in
        let own : bytes_equal n.public s.st.onion_public_key ≡ true =
          (bytes_equal_iff n.public s.st.onion_public_key).1 (sym s.keyed) in
        let fine : key_error s.st settings ≡ responds tt = rw (many, mine, own) in
        let srv : Server = record n.server {
          rounds = insert (name, round) (signed_state s settings) n.server.rounds;
        } in
        (
          srv,
          n.sign settings,
          rw (
            set_round_settings,
            s.lets_in,
            settings_from_proto-settings_proto (settings_for name round raw keys) sized,
            s.begun,
            s.knows,
            s.parses,
            s.unsigned,
            fine,
          ),
          refl,
          record {
            st = signed_state s settings;
            parsed = s.parsed;
            noise = s.service.generate_noise settings s.st.my_pos;
            kept = get_round-inserted n.server name round {st = signed_state s settings};
            agreed = refl;
            signature = refl;
            signs = refl;
            place = s.place;
            own_key = here ∙ ap some (sym s.keyed);
            noisy = refl;
          },
        )
      where
        signed_state : IsStarted name round raw chain i n → RoundSettings → RoundState
        signed_state s settings = record s.st {
          settings = some settings;
          settings_signature = some (n.sign settings);
          noise = some (s.service.generate_noise settings s.st.my_pos);
        }

    set_all-AllSigned :
        (before : List Bytes) (ns : List Node)
        → AllAt (IsStarted name round raw chain) (length before) ns
        → keys ≡ before ++ map (λ (n : Node). n.public) ns
        → (ns' : List Node) × (sigs : List Bytes) × (set_all
              (settings_proto (settings_for name round raw keys))
              ns
            ≡ (ns', responds sigs))
          × AllSigned (length before) ns' sigs
          × (map (λ (n : Node). n.sign) ns' ≡ map (λ (n : Node). n.sign) ns)
    unfolding set_all
    set_all-AllSigned before [] all e = ([], [], refl, tt, refl)
    set_all-AllSigned before (n ∷ ns) (s, all) e =
        let publics = map (λ (m : Node). m.public) ns in
        let here : get_elem? keys (length before) ≡ some n.public =
          ap (λ (ks : List Bytes). get_elem? ks (length before)) e
          ∙ get_elem?-append_middle before n.public publics in
        let next : length (before ++ (n.public ∷ [])) ≡ suc (length before) =
          omega (arith, length-append before (n.public ∷ [])) in
        let (srv, sig, one, told, good) = signed (length before) n s here in
        let (ns', sigs, others, rest, signs) =
          set_all-AllSigned (before ++ (n.public ∷ [])) ns
            (subst (λ k. AllAt (IsStarted name round raw chain) k ns) (sym next) all)
            (e ∙ sym (append_assoc before (n.public ∷ []) publics)) in
        (
          record n { server = srv } ∷ ns',
          sig ∷ sigs,
          rw (one, others),
          (good, subst (λ k. AllSigned k ns' sigs) next rest),
          ap (◌∷◌ n.sign) signs,
        )

keys_sized :
    (name : Bytes) (round : ℕ) (raw : Bytes) (chain : List PublicServerConfig) (i : ℕ)
    (ns : List Node)
    → AllAt (IsReady name round raw chain) i ns
    → AllKeys (map (λ (n : Node). n.public) ns)
keys_sized name round raw chain i [] all = tt
keys_sized name round raw chain i (n ∷ ns) (r, all) =
    (r.key_size, keys_sized name round raw chain (suc i) ns all)

-- If every server of the chain lets the coordinator in, knows the service and its data, stands at
-- its own place of the chain, has no such round yet and makes a key of 32 bytes, then `NewRound`
-- succeeds: each server has signed, and keeps, the same settings, which hold at each place the key
-- that the server there made, and has its place in the chain, its signature, and noise for them.
pub new_round_at-AllSigned :
    (name : Bytes) (round : ℕ) (raw : Bytes) (nodes : List Node)
    → AllAt (IsReady name round raw (map (λ (n : Node). n.config) nodes)) 0 nodes
    → (nodes' : List Node) × (sigs : List Bytes) × (new_round_at name round raw nodes
        ≡ (nodes', responds sigs))
      × AllSigned name round raw (map (λ (n : Node). n.public) nodes) 0 nodes' sigs
      × (map (λ (n : Node). n.sign) nodes' ≡ map (λ (n : Node). n.sign) nodes)
unfolding new_round_at
new_round_at-AllSigned name round raw nodes all =
    let chain = map (λ (n : Node). n.config) nodes in
    let keys = map (λ (n : Node). n.public) nodes in
    let (ns, begun, started, same, signs) = start_all-IsStarted name round raw chain 0 nodes all in
    let counted : length keys ≡ length chain =
      length-map (λ (n : Node). n.public) nodes ∙ sym (length-map (λ (n : Node). n.config) nodes) in
    let (ns', sigs, set, good, signs') =
      set_all-AllSigned name round raw keys chain (keys_sized name round raw chain 0 nodes all)
        counted [] ns started (sym same) in
    (ns', sigs, rw (new_round_at, begun) set, good, signs' ∙ signs)
