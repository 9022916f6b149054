-- ===== src/Mixnet/Rounds/Closing/Saves.antt =====
-- What a round keeps when it ends.
use gjallarhorn.Prelude.{
  ℕ, suc, ◌≡◌, refl, Bool, true, false, List, [], ◌++◌, Option, none, some, if◌then◌else◌, ltb,
  length, get_elem?, take,
}
use gjallarhorn.Prelude.Bytes.{Bytes}
use gjallarhorn.Mixnet.Settings.{RoundSettings, PublicServerConfig}
use gjallarhorn.Mixnet.Filter.{filter_incoming}
use gjallarhorn.Mixnet.Replies.{encrypt_replies, reply_msg_size}
use gjallarhorn.Mixnet.Rounds.{
  Outcome, responds, fails, panics, waits, RpcError, Handled, replied, result, failed, Service,
  RoundState,
}
use gjallarhorn.Mixnet.Rounds.Closing.{
  World, Closed, fail_round, seal_replies, mix, mix_bidirectional, mix_unidirectional, mix_last,
  handled, filtered, mix_round,
}

-- A handler that came to its end: it responded or failed.
abbrev pub Ended {ℓ} : {A : Type ℓ} → Outcome A → Type 0
Ended (responds a) = Unit {0}
Ended (fails e) = Unit {0}
Ended panics = ⊥
Ended waits = ⊥

-- What a closed round answers.
abbrev pub saved : RoundState → Outcome Bytes
saved st = elim st.err [ none ↦ responds st.close_result | some e ↦ fails e ]

abbrev pub Unanswered : RoundState → Type 0
Unanswered st = (st.err ≡ none) × (st.close_result ≡ [])

abbrev pub Saves : Closed → Type 0
Saves (st, out) = Ended out → (st.closed ≡ true) × (saved st ≡ out)

module _ (w : World) (service : Service) (name : Bytes) (round : ℕ) where
  seal_replies-Saves :
      (st : RoundState) (replies : List Bytes)
      → st.closed ≡ true
      → Unanswered st
      → Saves (seal_replies w service round st replies)
  seal_replies-Saves st replies c (e, r) = sealed (
      encrypt_replies w.box round
        (reply_msg_size (length st.chain) st.my_pos service.size_reply_message) w.fresh replies
        st.shared_keys st.incoming_index)
    where
      sealed :
          (o : Option (List Bytes))
          → Saves (elim o [
            | none ↦ (st, panics)
            | some rs ↦ (record st { replies = rs; encrypt_done = true }, responds [])
          ])
      sealed none ended = absurd ended
      sealed (some rs) ended = (c, rw (e, r))

  mix_bidirectional-Saves :
      (st : RoundState) (next : PublicServerConfig) (n : ℕ) (out : List Bytes)
      → st.closed ≡ true
      → Unanswered st
      → Saves (mix_bidirectional w service name round st next n out)
  mix_bidirectional-Saves st next n out c u =
      ran (w.run_bidirectional next name round ((w.shuffler (length out)).shuffle out))
    where
      cut :
          (few : Bool) (rs : List Bytes)
          → Saves (if few then (st, panics) else seal_replies w service round st rs)
      cut true rs ended = absurd ended
      cut false rs ended = seal_replies-Saves st rs c u ended

      ran :
          (o : Option (List Bytes))
          → Saves (elim o [
            | none ↦ fail_round RpcError.run_round_failed st
            | some replies ↦
                if ltb (length ((w.shuffler (length out)).unshuffle replies)) n
                then (st, panics)
                else seal_replies w service round st
                    (take n ((w.shuffler (length out)).unshuffle replies))
          ])
      ran none ended = (c, refl)
      ran (some rs) ended =
          cut (ltb (length ((w.shuffler (length out)).unshuffle rs)) n)
            (take n ((w.shuffler (length out)).unshuffle rs)) ended

  mix_unidirectional-Saves :
      (st : RoundState) (next : PublicServerConfig) (out : List Bytes)
      → st.closed ≡ true
      → Unanswered st
      → Saves (mix_unidirectional w name round st next out)
  mix_unidirectional-Saves st next out c (e, r) =
      ran (w.run_unidirectional next name round ((w.shuffler (length out)).shuffle out))
    where
      ran :
          (o : Option Bytes)
          → Saves (elim o [
            | none ↦ fail_round RpcError.run_round_failed st
            | some r ↦ (record st { close_result = r }, responds r)
          ])
      ran none ended = (c, refl)
      ran (some r) ended = (c, rw e)

  handled-Saves :
      (st : RoundState) (mode : Bool) (h : Handled)
      → st.closed ≡ true
      → Unanswered st
      → Saves (handled w service round st mode h)
  handled-Saves st mode failed c u ended = (c, refl)
  handled-Saves st true (replied rs) c u ended = seal_replies-Saves st rs c u ended
  handled-Saves st true (result r) c u ended = absurd ended
  handled-Saves st false (replied rs) c u ended = absurd ended
  handled-Saves st false (result r) c (e, x) ended = (c, rw e)

  mix_last-Saves :
      (st : RoundState) (out : List Bytes)
      → st.closed ≡ true
      → Unanswered st
      → Saves (mix_last w service round st out)
  mix_last-Saves st out c u = given st.settings
    where
      given :
          (o : Option RoundSettings)
          → Saves (elim o [
            | none ↦ (st, panics)
            | some s ↦ handled w service round st st.bidirectional (service.handle_messages s out)
          ])
      given none ended = absurd ended
      given (some s) ended =
          handled-Saves st st.bidirectional (service.handle_messages s out) c u ended

  mix-Saves :
      (st : RoundState) (n : ℕ) (out : List Bytes)
      → st.closed ≡ true
      → Unanswered st
      → Saves (mix w service name round st n out)
  mix-Saves st n out c u =
      placed (ltb (suc st.my_pos) (length st.chain)) (get_elem? st.chain (suc st.my_pos))
        st.bidirectional
    where
      placed :
          (middle : Bool) (o : Option PublicServerConfig) (both : Bool)
          → Saves (
              if middle
              then elim o [
                | none ↦ (st, panics)
                | some next ↦
                    if both
                    then mix_bidirectional w service name round st next n out
                    else mix_unidirectional w name round st next out
              ]
              else mix_last w service round st out)
      placed false o both ended = mix_last-Saves st out c u ended
      placed true none both ended = absurd ended
      placed true (some next) true ended = mix_bidirectional-Saves st next n out c u ended
      placed true (some next) false ended = mix_unidirectional-Saves st next out c u ended

  pub mix_round-Saves :
      (st : RoundState) → Unanswered st → Saves (mix_round w service name round st)
  unfolding mix_round
  mix_round-Saves st u = made st.noise
    where
      made :
          (o : Option (List Bytes))
          → Saves (elim o [
            | none ↦ (record st { closed = true }, waits)
            | some noise ↦
                mix w service name round
                  (filtered st)
                  (length (filter_incoming st.incoming).0)
                  ((filter_incoming st.incoming).0 ++ noise)
          ])
      made none ended = absurd ended
      made (some noise) ended =
          mix-Saves (filtered st) (length (filter_incoming st.incoming).0)
            ((filter_incoming st.incoming).0 ++ noise) refl u ended
