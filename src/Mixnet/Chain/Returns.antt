-- ===== src/Mixnet/Chain/Returns.antt =====
-- What a batch gets back from a chain of servers.
use gjallarhorn.Prelude.{
  ℕ, zero, suc, ◌+◌, ◌-◌, ◌*◌, ◌<◌, ◌≡◌, refl, sym, ap, ◌∙◌, Bool, true, ◌&&◌, List, [], ◌∷◌, ◌++◌,
  Option, none, some, some_inj, if◌then◌else◌, arith, length, get_elem?, get_elem?-lt_length,
  length-map,
}
use mathlib.Core.Path.{subst}
use gjallarhorn.Mixnet.Rounds.Onions.Positions.{shared_key}
use gjallarhorn.Prelude.Bytes.{Bytes}
use gjallarhorn.Mixnet.Settings.{RoundSettings, PublicServerConfig}
use gjallarhorn.Mixnet.Replies.{Box, IsBox, reply_msg_size, backward_nonce}
use gjallarhorn.Mixnet.Replies.Sealed.{AllSized}
use gjallarhorn.Mixnet.Rounds.{responds, replied, RoundState}
use gjallarhorn.Mixnet.Rounds.Closing.{World, mix_round}
use gjallarhorn.Mixnet.Rounds.Closing.Answers.{
  Returned, mix_round-Returned, mix_round-Returned_last,
}
use gjallarhorn.Mixnet.Fetching.{Span, Covers, fetch_onions}
use gjallarhorn.Mixnet.Fetching.Complete.{fetch_onions-held}
use gjallarhorn.Mixnet.Chain.{
  Stage, Network, fetch_closed, close_added, run_round_bidirectional, run_chain,
}
use gjallarhorn.Mixnet.Chain.Worked.{Keyed, worked, open_sized, decrypted, close_open-worked}
use gjallarhorn.Mixnet.Chain.Trace.{
  Peels, Passes, Serves, Trace, arrives, hops, valid_at, index_at, goes_on-sized,
}

AllSized-at :
    (n : ℕ) (rs : List Bytes) (k : ℕ) {r : Bytes}
    → AllSized n rs
    → get_elem? rs k ≡ some r
    → length r ≡ n
AllSized-at n [] k a h = ground arith
AllSized-at n (r ∷ rs) zero (e, a) h = ap length (sym (some_inj h)) ∙ e
AllSized-at n (r ∷ rs) (suc k) (e, a) h = AllSized-at n rs k a h

fetch_sealed :
    (spans : ℕ → ℕ → List Span) (law : (n size : ℕ) → 0 < size → Covers 0 (spans n size) n) (n : ℕ)
    (st : RoundState) (out : Bytes)
    → st.bidirectional ≡ true
    → st.encrypt_done ≡ true
    → length st.replies ≡ n
    → n < 4294967296
    → fetch_closed spans n (st, responds out) ≡ some st.replies
fetch_sealed spans law n st out both done count small =
    fetched st.bidirectional st.encrypt_done both done
  where
    fetched :
        (b d : Bool)
        → b ≡ true
        → d ≡ true
        → (if b && d then fetch_onions spans n st.replies else none) ≡ some st.replies
    fetched b d e f =
        rw (e, f)
          (ap (λ k. fetch_onions spans k st.replies) (sym count)
            ∙ fetch_onions-held st.replies spans law (omega arith))

module _ (spans : ℕ → ℕ → List Span) (law : (n size : ℕ) → 0 < size → Covers 0 (spans n size) n)
    (x : Box) (boxes : IsBox x) (name : Bytes) (round size : ℕ) (net : Network) where
  abbrev world_at : ℕ → Stage → World
  world_at m stage = record {
    box = x;
    fresh = stage.fresh;
    shuffler = stage.shuffler;
    run_bidirectional = run_chain m x spans net;
    run_unidirectional = λ next service r batch. none;
  }

  -- A batch's replies: one for each onion, of one size, of which number `k` opens to `r`.
  pub record Replied (m : ℕ) (conf : PublicServerConfig) (batch : List Bytes) (k : ℕ)
      (keys : List Bytes) (r : Bytes) : Type 0 where
    pub replies : List Bytes
    pub result : run_chain (suc m) x spans net conf name round batch ≡ some replies
    pub count : length replies ≡ length batch
    pub sized : AllSized (m * 16 + size + 16) replies
    pub box : Bytes
    pub there : get_elem? replies k ≡ some box
    pub peels : Peels x round keys box r

  -- One server, whose round ends with a box for onion `k`, around what the servers behind it gave.
  Returned-Replied :
      (m : ℕ) (conf : PublicServerConfig) (stage : Stage) (noise batch : List Bytes) (k v : ℕ)
      (key : Bytes) (keys : List Bytes) (inner r : Bytes)
      → (ps : Passes x round size net m conf stage noise batch k v key) → Peels x round keys inner r
      → ((ks : List Bytes)
          → Keyed spans law x round stage.state batch ps.small ks
          → (st' : RoundState) × (msg : Bytes) × (mix_round
                (world_at m stage)
                stage.service
                name
                round
                (worked x round stage.state batch ks)
              ≡ (st', responds []))
            × Returned
                (world_at m stage)
                boxes
                stage.service
                round
                (worked x round stage.state batch ks)
                st'
                k
                key
                msg
                inner)
      → Replied m conf batch k (key ∷ keys) r
  unfolding run_chain run_round_bidirectional reply_msg_size
  Returned-Replied m conf stage noise batch k v key keys inner r ps peel mixed =
      let st = stage.state in
      let n = length batch in
      let w = world_at m stage in
      let here = get_elem?-lt_length batch k ps.sent in
      let (ks, keyed, mixing) =
        close_open-worked spans law w stage.service name round st batch ps.small (omega arith)
          ps.serves.idle in
      let (st1, added, closes) = mixing in
      let (st2, msg, ends, back) = mixed ks keyed in
      let closed = closes ∙ ends in
      let same : length (decrypted x round st batch) ≡ n =
        length-map (open_sized x round st) batch in
      let size_here : reply_msg_size (length st.chain) st.my_pos stage.service.size_reply_message
          ≡ m * 16 + size =
        ap (λ l. (l - st.my_pos - 1) * 16 + stage.service.size_reply_message) ps.serves.place
        ∙ ap (λ s. (suc st.my_pos + m - st.my_pos - 1) * 16 + s) ps.serves.reply_size
        ∙ ap (λ l. l * 16 + size) (omega arith) in
      record {
        replies = st2.replies;
        result =
            ap (dialled m) ps.dialled
            ∙ ap (close_added w spans stage.service name round n) added
            ∙ ap (fetch_closed spans n) closed
            ∙ fetch_sealed spans law n st2 [] (back.same_mode ∙ ps.serves.idle.both_ways) back.done
                (back.count ∙ same) ps.small;
        count = back.count ∙ same;
        sized = subst (λ s. AllSized (s + 16) st2.replies) size_here back.sized;
        box = back.box;
        there = back.reply;
        peels = (
          inner,
          subst (λ l. x.open_after back.box (backward_nonce round) l ≡ some inner) refl back.opens,
          peel,
        );
      }
    where
      dialled : ℕ → Option Stage → Option (List Bytes)
      dialled m none = none
      dialled m (some g) =
          run_round_bidirectional (world_at m g) spans g.service name round g.state batch

  -- What the batch's sender and the service agree on: the service answers all that it gets, and at
  -- place `p` with `r`, of the size of a reply.
  pub record Answers (last : Stage) (final : List Bytes) (p : ℕ) (r : Bytes) : Type 0 where
    pub settings : RoundSettings
    pub known : last.state.settings ≡ some settings
    pub answers : List Bytes
    pub handles : last.service.handle_messages settings final ≡ replied answers
    pub full : length answers ≡ length final
    pub at : get_elem? answers p ≡ some r
    pub fits : length r ≡ size

  module _ (stage : Stage) (batch ks : List Bytes) (small : length batch < 4294967296) (k v : ℕ)
      (key : Bytes) (keyed : Keyed spans law x round stage.state batch small ks) where
    same_length : length ks ≡ length (decrypted x round stage.state batch)
    same_length = keyed.count ∙ sym (length-map (open_sized x round stage.state) batch)

    shares :
        (onion : Bytes)
        → get_elem? batch k ≡ some onion
        → get_elem? (index_at x round stage batch) k ≡ some (some v)
        → key ≡ shared_key x round stage.state onion
        → get_elem? ks k ≡ some key
    shares onion sent goes same =
        keyed.keyed k onion sent (goes_on-sized x round stage batch k v onion sent goes)
        ∙ ap some (sym same)

  sized_here :
      (m : ℕ) (stage : Stage) (noise : List Bytes)
      → Serves x round size m stage noise
      → reply_msg_size
          (length stage.state.chain)
          stage.state.my_pos
          stage.service.size_reply_message
        ≡ m * 16 + size
  unfolding reply_msg_size
  sized_here m stage noise s =
      ap (λ l. (l - stage.state.my_pos - 1) * 16 + stage.service.size_reply_message) s.place
      ∙ ap (λ b. (suc stage.state.my_pos + m - stage.state.my_pos - 1) * 16 + b) s.reply_size
      ∙ ap (λ l. l * 16 + size) (omega arith)

  -- A run of a batch through any number of servers, in any spans that cover the batches, when the
  -- service at the end answers: the run gives one reply for each onion, all of them of one length,
  -- and an onion that no server drops on its way gets the service's answer to the place that it
  -- comes to, in one box for each server, under the keys that its sender shares with them.
  pub chain-Replied :
      {m : ℕ} {conf : PublicServerConfig} {batch : List Bytes} {k : ℕ} {keys : List Bytes}
      {last : Stage} {final : List Bytes} {p : ℕ} (r : Bytes)
      → Trace x round size net m conf batch k keys last final p
      → Answers last final p r
      → Replied m conf batch k keys r
  chain-Replied r (arrives conf stage noise batch k v key ps) a =
      let st = stage.state in
      let none_behind : size ≡ 0 * 16 + size = omega arith in
      Returned-Replied 0 conf stage noise batch k v key [] r r ps refl (λ ks keyed.
        let (st', msg, ends, back, there) =
          mix_round-Returned_last (world_at 0 stage) boxes stage.service round
            (worked x round st batch ks) (same_length stage batch ks ps.small k v key keyed) k v key
            r ps.goes_on
            (shares stage batch ks ps.small k v key keyed ps.onion ps.sent ps.goes_on ps.shares)
            (a.fits ∙ none_behind ∙ sym (sized_here 0 stage noise ps.serves)) name a.settings noise
            a.answers ps.serves.made ps.serves.idle.both_ways (omega (arith, ps.serves.place))
            a.known a.handles a.full a.at in
        (st', msg, ends, back))
  chain-Replied r
        (hops behind conf next stage noise batch k v key keys last final p ps later shuffles t) a =
      let st = stage.state in
      let out = valid_at x round stage batch ++ noise in
      let rest = chain-Replied r t a in
      Returned-Replied (suc behind) conf stage noise batch k v key keys rest.box r ps rest.peels
        (λ ks keyed.
          let (st', msg, ends, back, there) =
            mix_round-Returned (world_at (suc behind) stage) boxes stage.service round
              (worked x round st batch ks) (same_length stage batch ks ps.small k v key keyed) k v
              key rest.box ps.goes_on
              (shares stage batch ks ps.small k v key keyed ps.onion ps.sent ps.goes_on ps.shares)
              (AllSized-at (behind * 16 + size + 16) rest.replies (shuffles.place v) rest.sized
                  rest.there
                ∙ omega arith
                ∙ sym (sized_here (suc behind) stage noise ps.serves))
              name next noise rest.replies ps.serves.made ps.serves.idle.both_ways later shuffles
              rest.result (rest.count ∙ shuffles.shuffle_length out refl) rest.there in
          (st', msg, ends, back))
