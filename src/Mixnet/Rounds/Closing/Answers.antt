-- ===== src/Mixnet/Rounds/Closing/Answers.antt =====
-- The way of one onion through a server and back.
use gjallarhorn.Prelude.{
  ℕ, suc, ◌+◌, ◌≤◌, ◌<◌, ◌≡◌, refl, ap, ◌∙◌, true, false, List, [], ◌++◌, Option, none, some, ltb,
  arith, length, get_elem?, get_elem?-lt_length, get_elem?-append_some, get_elem?-take, take,
  length-append, length-take,
}
use gjallarhorn.Prelude.Bytes.{Bytes}
use gjallarhorn.Mixnet.Settings.{RoundSettings, PublicServerConfig}
use gjallarhorn.Mixnet.Filter.{filter_incoming}
use gjallarhorn.Mixnet.Filter.Index.{filter_incoming-index, length-filter_from}
use gjallarhorn.Mixnet.Replies.{IsBox, reply_msg_size, backward_nonce}
use gjallarhorn.Mixnet.Replies.Sealed.{AllSized, encrypt_replies-AllSized, encrypt_replies-opens}
use gjallarhorn.Mixnet.Rounds.{Outcome, responds, replied, Service, RoundState}
use gjallarhorn.Mixnet.Rounds.Closing.{
  World, IsShuffler, seal_replies, filtered, handled, mix, mix_bidirectional, mix_last, mix_round,
}

abbrev pub valid_of : RoundState → List Bytes
valid_of st = (filter_incoming st.incoming).0

abbrev pub index_of : RoundState → List (Option ℕ)
index_of st = (filter_incoming st.incoming).1

-- The branches of `mix_round` that end with replies.
module _ (w : World) (service : Service) (name : Bytes) (round : ℕ) where
  step_middle :
      (st : RoundState) (next : PublicServerConfig) (noise : List Bytes)
      → st.noise ≡ some noise
      → ltb (suc st.my_pos) (length st.chain) ≡ true
      → get_elem? st.chain (suc st.my_pos) ≡ some next
      → st.bidirectional ≡ true
      → mix_round w service name round st
        ≡ mix_bidirectional w service name round
            (filtered st)
            next
            (length (valid_of st))
            (valid_of st ++ noise)
  unfolding mix_round
  step_middle st next noise made middle later both =
      rw (mix_round, made)
        (mixed (filtered st) (length (valid_of st)) (valid_of st ++ noise) middle later both)
    where
      mixed :
          (c : RoundState) (n : ℕ) (out : List Bytes)
          → ltb (suc c.my_pos) (length c.chain) ≡ true
          → get_elem? c.chain (suc c.my_pos) ≡ some next
          → c.bidirectional ≡ true
          → mix w service name round c n out ≡ mix_bidirectional w service name round c next n out
      mixed c n out m l b = rw (mix, m, l, b)

  step_run :
      (c : RoundState) (next : PublicServerConfig) (n : ℕ) (out replies : List Bytes)
      → w.run_bidirectional next name round ((w.shuffler (length out)).shuffle out) ≡ some replies
      → ltb (length ((w.shuffler (length out)).unshuffle replies)) n ≡ false
      → mix_bidirectional w service name round c next n out
        ≡ seal_replies w service round c (take n ((w.shuffler (length out)).unshuffle replies))
  step_run c next n out replies ran enough = rw (mix_bidirectional, ran, enough)

  step_last :
      (st : RoundState) (noise : List Bytes)
      → st.noise ≡ some noise
      → ltb (suc st.my_pos) (length st.chain) ≡ false
      → mix_round w service name round st
        ≡ mix_last w service round (filtered st) (valid_of st ++ noise)
  unfolding mix_round
  step_last st noise made end =
      rw (mix_round, made) (mixed (filtered st) (length (valid_of st)) (valid_of st ++ noise) end)
    where
      mixed :
          (c : RoundState) (n : ℕ) (out : List Bytes)
          → ltb (suc c.my_pos) (length c.chain) ≡ false
          → mix w service name round c n out ≡ mix_last w service round c out
      mixed c n out m = rw (mix, m)

step_handled :
    (w : World) (service : Service) (round : ℕ) (c : RoundState) (out : List Bytes)
    (settings : RoundSettings) (replies : List Bytes)
    → c.settings ≡ some settings
    → service.handle_messages settings out ≡ replied replies
    → c.bidirectional ≡ true
    → mix_last w service round c out ≡ seal_replies w service round c replies
step_handled w service round c out settings replies set handles both =
    ap
      (λ o. elim o [
        | none ↦ (c, Outcome.panics)
        | some s ↦ handled w service round c c.bidirectional (service.handle_messages s out)
      ])
      set
    ∙ ap (handled w service round c c.bidirectional) handles
    ∙ ap (λ b. handled w service round c b (replied replies)) both

module _ (w : World) (law : IsBox w.box) (service : Service) (round : ℕ) (st : RoundState) where
  abbrev pub reply_size : ℕ
  reply_size = reply_msg_size (length st.chain) st.my_pos service.size_reply_message

  -- Onion `k` of the round, whose message is `m`, has a box that its key opens to `r`.
  pub record Returned (st' : RoundState) (k : ℕ) (key m r : Bytes) : Type 0 where
    pub done : st'.encrypt_done ≡ true
    pub same_mode : st'.bidirectional ≡ st.bidirectional
    pub count : length st'.replies ≡ length st.incoming
    pub sized : AllSized (reply_size + 16) st'.replies
    pub message : get_elem? st.incoming k ≡ some (some m)
    pub box : Bytes
    pub reply : get_elem? st'.replies k ≡ some box
    pub opens : w.box.open_after box (backward_nonce round) key ≡ some r

  module _ (keys : length st.shared_keys ≡ length st.incoming) (k v : ℕ) (key r : Bytes)
      (gone_on : get_elem? (index_of st) k ≡ some (some v))
      (shared : get_elem? st.shared_keys k ≡ some key) (size : length r ≡ reply_size) where
    indices : length (index_of st) ≡ length st.incoming
    unfolding filter_incoming
    indices = length-filter_from st.incoming [] []

    sealed_Returned :
        (replies : List Bytes)
        → length (valid_of st) ≤ length replies
        → get_elem? replies v ≡ some r
        → (st' : RoundState) × (m : Bytes) × (seal_replies w service round (filtered st) replies
            ≡ (st', responds []))
          × Returned st' k key m r
          × (get_elem? (valid_of st) v ≡ some m)
    sealed_Returned replies enough found =
        let fits : (k v : ℕ)
            → get_elem? (index_of st) k ≡ some (some v)
            → (v < length replies) × (k < length st.shared_keys) =
          λ k v h.
            let (m, e, there) = filter_incoming-index st.incoming k v h in
            (
              omega (arith, get_elem?-lt_length (valid_of st) v there),
              omega (arith, keys, indices, get_elem?-lt_length (index_of st) k h),
            ) in
        let (rs, er, count, sized) =
          encrypt_replies-AllSized w.box law round reply_size w.fresh replies st.shared_keys
            (index_of st) fits in
        let (m, e, there) = filter_incoming-index st.incoming k v gone_on in
        let (box, reply, opens) =
          encrypt_replies-opens w.box law round reply_size w.fresh replies st.shared_keys
            (index_of st) rs k v r key fits er gone_on found shared size in
        (
          record (filtered st) { replies = rs; encrypt_done = true },
          m,
          rw (seal_replies, er),
          record {
            done = refl;
            same_mode = refl;
            count = count ∙ indices;
            sized = sized;
            message = e;
            box = box;
            reply = reply;
            opens = opens;
          },
          there,
        )

    -- A server that is not the last one shuffles its messages and its noise and gives them to the
    -- next server. If that gives one reply for each message, the round ends well: onion `k`, which
    -- was not dropped, stood at one place of the shuffled batch, and the reply from that place, if
    -- it has the right size, is what its sender opens with the key that it shares with this server;
    -- the replies to all the onions of the round have one length.
    pub mix_round-Returned :
        (name : Bytes) (next : PublicServerConfig) (noise replies : List Bytes)
        → st.noise ≡ some noise
        → st.bidirectional ≡ true
        → get_elem? st.chain (suc st.my_pos) ≡ some next
        → (shuffles : IsShuffler
            (w.shuffler (length (valid_of st ++ noise)))
            (length (valid_of st ++ noise)))
        → w.run_bidirectional next name round
            ((w.shuffler (length (valid_of st ++ noise))).shuffle (valid_of st ++ noise))
          ≡ some replies
        → length replies ≡ length (valid_of st ++ noise)
        → get_elem? replies (shuffles.place v) ≡ some r
        → (st' : RoundState) × (m : Bytes) × (mix_round w service name round st
            ≡ (st', responds []))
          × Returned st' k key m r
          × (get_elem?
                ((w.shuffler (length (valid_of st ++ noise))).shuffle (valid_of st ++ noise))
                (shuffles.place v)
              ≡ some m)
    mix_round-Returned name next noise replies made both later shuffles ran full found =
        let out = valid_of st ++ noise in
        let s = w.shuffler (length out) in
        let n = length (valid_of st) in
        let (x, e, there) = filter_incoming-index st.incoming k v gone_on in
        let long : n ≤ length (s.unshuffle replies) =
          omega
            (arith, shuffles.unshuffle_length replies full, length-append (valid_of st) noise) in
        let back : get_elem? (take n (s.unshuffle replies)) v ≡ some r =
          get_elem?-take (s.unshuffle replies) n v (get_elem?-lt_length (valid_of st) v there)
          ∙ shuffles.unshuffle_at replies full v
          ∙ found in
        let (st', m, sealed, returned, valid) =
          sealed_Returned (take n (s.unshuffle replies))
            (omega (arith, length-take n (s.unshuffle replies))) back in
        let middle : ltb (suc st.my_pos) (length st.chain) ≡ true =
          ground (arith, get_elem?-lt_length st.chain (suc st.my_pos) later) in
        let enough : ltb (length (s.unshuffle replies)) n ≡ false = ground arith in
        (
          st',
          m,
          step_middle w service name round st next noise made middle later both
              ∙ step_run w service name round (filtered st) next n out replies ran enough
              ∙ sealed,
          returned,
          shuffles.shuffle_at out refl v ∙ get_elem?-append_some (valid_of st) noise v valid,
        )

    -- The last server gives its messages and its noise to the service. If that gives a reply for
    -- each, the round ends well: onion `k`, which was not dropped, has the reply to its own message.
    pub mix_round-Returned_last :
        (name : Bytes) (settings : RoundSettings) (noise replies : List Bytes)
        → st.noise ≡ some noise
        → st.bidirectional ≡ true
        → length st.chain ≤ suc st.my_pos
        → st.settings ≡ some settings
        → service.handle_messages settings (valid_of st ++ noise) ≡ replied replies
        → length replies ≡ length (valid_of st ++ noise)
        → get_elem? replies v ≡ some r
        → (st' : RoundState) × (m : Bytes) × (mix_round w service name round st
            ≡ (st', responds []))
          × Returned st' k key m r
          × (get_elem? (valid_of st ++ noise) v ≡ some m)
    mix_round-Returned_last name settings noise replies made both last set handles full found =
        let (st', m, sealed, returned, valid) =
          sealed_Returned replies (omega (arith, length-append (valid_of st) noise)) found in
        let end : ltb (suc st.my_pos) (length st.chain) ≡ false = ground arith in
        (
          st',
          m,
          step_last w service name round st noise made end
              ∙ step_handled w service round (filtered st) (valid_of st ++ noise) settings replies
                  set handles both
              ∙ sealed,
          returned,
          get_elem?-append_some (valid_of st) noise v valid,
        )
