-- ===== src/Convo/Service.antt =====
-- `ConvoService` of convo/mixer.go as a service of the mixnet, and what a round of the last server
-- does with it.
use mathlib.Core.List.{append-nil}
use mathlib.Core.Path.{subst}
use gjallarhorn.Prelude.{
  ℕ, suc, ◌+◌, ◌≤◌, ◌<◌, ◌≡◌, refl, sym, ap, ◌∙◌, true, List, [], ◌∷◌, ◌++◌, Option, none, some,
  some_inj, arith, length, get_elem?, drop, map, length-map, length-take, length-drop,
  get_elem?-map,
}
use gjallarhorn.Prelude.Bytes.{Bytes}
use gjallarhorn.Mixnet.Settings.{RoundSettings}
use gjallarhorn.Mixnet.Replies.{IsBox, reply_msg_size}
use gjallarhorn.Mixnet.Rounds.{responds, replied, Service, RoundState}
use gjallarhorn.Mixnet.Rounds.Closing.{World, mix_round}
use gjallarhorn.Mixnet.Rounds.Closing.Answers.{
  Returned, valid_of, index_of, mix_round-Returned_last,
}
use gjallarhorn.Convo.{
  drop_of, body_of, Accesses, no_accesses, count_accesses, replies_from, handle_messages,
}
use gjallarhorn.Convo.Exchange.{positions, handle_messages-exchange}
use gjallarhorn.Convo.Noise.{Generated, made, make_even, generate_noise}

-- Where the noise comes from: the Laplace samples, the random bytes, and the onions for the servers
-- after a position. The samples are not so great that `GenerateNoise` panics.
pub record NoiseSource : Type 0 where
  pub seal_onion : RoundSettings → ℕ → Bytes → Bytes
  pub singles : ℕ
  pub doubles : ℕ
  pub single : ℕ → Bytes
  pub double : ℕ → Bytes
  pub rest : ℕ → Bytes
  pub bounded : singles + make_even doubles < 4294967296

-- A nil slice is an empty one.
abbrev pub or_empty {ℓ} : {A : Type ℓ} → Option (List A) → List A
or_empty none = []
or_empty (some xs) = xs

-- With a bounded source there is no panic.
abbrev pub noise_of : Generated → List Bytes
noise_of Generated.nil = []
noise_of Generated.panics = []
noise_of (made noise) = noise

unfoldable pub convo_service : NoiseSource → Service
unfolding generate_noise handle_messages
convo_service n = record {
  bidirectional = true;
  size_incoming_message = 272;
  size_reply_message = 256;
  parse_service_data = λ data_. some [];
  generate_noise = λ settings my_pos. noise_of (
      generate_noise (n.seal_onion settings my_pos) n.singles n.doubles n.single n.double n.rest
        (length settings.onion_keys) my_pos);
  handle_messages = λ settings messages. replied (map or_empty (handle_messages messages).0);
}

length-replies_from :
    (incoming msgs : List Bytes) (a : Accesses) (i : ℕ)
    → length (replies_from incoming a i msgs) ≡ length msgs
unfolding replies_from
length-replies_from incoming [] a i = refl
length-replies_from incoming (m ∷ msgs) a i = ap suc (length-replies_from incoming msgs a (i + 1))

pub length-handle_messages :
    (incoming : List Bytes) → length (handle_messages incoming).0 ≡ length incoming
unfolding handle_messages
length-handle_messages incoming =
    length-replies_from incoming incoming (count_accesses 0 incoming no_accesses) 0

pub length-body_of : (m : Bytes) → length m ≡ 272 → length (body_of m) ≡ 256
length-body_of m h = omega (arith, length-take 256 (drop 16 m), length-drop 16 m)

module _ (w : World) (law : IsBox w.box) (n : NoiseSource) (round : ℕ) (st : RoundState)
    (name : Bytes) (settings : RoundSettings) (keys : length st.shared_keys ≡ length st.incoming)
    (quiet : st.noise ≡ some []) (both : st.bidirectional ≡ true)
    (last : length st.chain ≤ suc st.my_pos) (set : st.settings ≡ some settings) where
  -- One onion whose message has a reply of the size of a box.
  one-Returned :
      (k v : ℕ) (key m r : Bytes)
      → get_elem? (index_of st) k ≡ some (some v)
      → get_elem? st.shared_keys k ≡ some key
      → get_elem? (valid_of st) v ≡ some m
      → get_elem? (handle_messages (valid_of st)).0 v ≡ some (some r)
      → length r ≡ 256
      → (st' : RoundState) × (mix_round w (convo_service n) name round st ≡ (st', responds []))
        × Returned w law (convo_service n) round st st' k key m r
  unfolding convo_service reply_msg_size
  one-Returned k v key m r index shared here answer size =
      let same : valid_of st ++ [] ≡ valid_of st = append-nil (valid_of st) in
      let msgs = map or_empty (handle_messages (valid_of st ++ [])).0 in
      let full : length msgs ≡ length (valid_of st ++ []) =
        length-map or_empty (handle_messages (valid_of st ++ [])).0
        ∙ length-handle_messages (valid_of st ++ []) in
      let found : get_elem? msgs v ≡ some r =
        get_elem?-map or_empty (handle_messages (valid_of st ++ [])).0 v
          (ap (λ ms. get_elem? (handle_messages ms).0 v) same ∙ answer) in
      let (st', m', done, returned, there) =
        mix_round-Returned_last w law (convo_service n) round st keys k v key r index shared
          (omega arith) name settings [] msgs quiet both last set refl full found in
      let e : m' ≡ m = some_inj (sym there ∙ ap (λ ms. get_elem? ms v) same ∙ here) in
      (st', done, subst (λ x. Returned w law (convo_service n) round st st' k key x r) e returned)

  -- The last server of the conversation service: if the messages of two onions are the first two of
  -- the round that access one dead drop, each sender opens, with the key that it shares with the
  -- server, the box of the other; the round ends well, and its replies have one length.
  pub convo_service-exchanges :
      (k k' v v' : ℕ) (key key' dest first second : Bytes) (more : List ℕ)
      → get_elem? (index_of st) k ≡ some (some v)
      → get_elem? (index_of st) k' ≡ some (some v')
      → get_elem? st.shared_keys k ≡ some key
      → get_elem? st.shared_keys k' ≡ some key'
      → get_elem? (valid_of st) v ≡ some first
      → get_elem? (valid_of st) v' ≡ some second
      → positions 0 dest (valid_of st) ≡ v ∷ v' ∷ more
      → drop_of first ≡ dest
      → drop_of second ≡ dest
      → length first ≡ 272
      → length second ≡ 272
      → (st' : RoundState) × (mix_round w (convo_service n) name round st ≡ (st', responds []))
        × Returned w law (convo_service n) round st st' k key first (body_of second)
        × Returned w law (convo_service n) round st st' k' key' second (body_of first)
  convo_service-exchanges k k' v v' key key' dest first second more index index' shared shared' here
        here' accesses d d' size size' =
      let (to_first, to_second) =
        handle_messages-exchange (valid_of st) dest first second v v' more here here' accesses d
          d' in
      let (st1, done1, one) =
        one-Returned k v key first (body_of second) index shared here to_first
          (length-body_of second size') in
      let (st2, done2, two) =
        one-Returned k' v' key' second (body_of first) index' shared' here' to_second
          (length-body_of first size) in
      let same : st2 ≡ st1 = ap (λ c. c.0) (sym done2 ∙ done1) in
      (
        st1,
        done1,
        one,
        subst (λ s. Returned w law (convo_service n) round st s k' key' second (body_of first)) same
            two,
      )
