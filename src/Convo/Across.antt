-- ===== src/Convo/Across.antt =====
-- Two clients exchange their boxes through the whole chain of servers: `RunRoundBidirectional` of
-- mixnet/mixnet.go with the conversation service of convo/mixer.go at the last server.
use gjallarhorn.Prelude.{
  ℕ, suc, ◌+◌, ◌*◌, ◌<◌, ◌≡◌, sym, ap, ◌∙◌, List, [], ◌∷◌, some, some_inj, length, get_elem?, map,
  length-map, get_elem?-map,
}
use mathlib.Core.Path.{subst}
use gjallarhorn.Prelude.Bytes.{Bytes}
use gjallarhorn.Mixnet.Settings.{RoundSettings, PublicServerConfig}
use gjallarhorn.Mixnet.Replies.{Box, IsBox}
use gjallarhorn.Mixnet.Replies.Sealed.{AllSized}
use gjallarhorn.Mixnet.Rounds.{Service}
use gjallarhorn.Mixnet.Fetching.{Span, Covers}
use gjallarhorn.Mixnet.Chain.{Stage, Network, run_chain}
use gjallarhorn.Mixnet.Chain.Trace.{Peels, Trace}
use gjallarhorn.Mixnet.Chain.Message.{Unwraps, Trace-message}
use gjallarhorn.Mixnet.Chain.Returns.{Answers, chain-Replied}
use gjallarhorn.Convo.{drop_of, body_of, handle_messages}
use gjallarhorn.Convo.Exchange.{positions, handle_messages-exchange}
use gjallarhorn.Convo.Service.{
  NoiseSource, or_empty, convo_service, length-handle_messages, length-body_of,
}

Unwraps-unique :
    (x : Box) (round : ℕ) (keys : List Bytes) (onion : Bytes) {m m' : Bytes}
    → Unwraps x round keys onion m
    → Unwraps x round keys onion m'
    → m ≡ m'
Unwraps-unique x round [] onion e e' = sym e ∙ e'
Unwraps-unique x round (key ∷ keys) onion {m} {m'} (inner, o, u) (inner', o', u') =
    let same : inner' ≡ inner = some_inj (sym o' ∙ o) in
    Unwraps-unique x round keys inner u (subst (λ i. Unwraps x round keys i m') same u')

module _ (spans : ℕ → ℕ → List Span) (law : (n size : ℕ) → 0 < size → Covers 0 (spans n size) n)
    (x : Box) (boxes : IsBox x) (name : Bytes) (round : ℕ) (net : Network) (n : NoiseSource)
    {last : Stage} {final : List Bytes} (settings : RoundSettings)
    (serves : last.service ≡ convo_service n) (known : last.state.settings ≡ some settings) where
  one-Answers :
      (p : ℕ) (r : Bytes)
      → get_elem? (handle_messages final).0 p ≡ some (some r)
      → length r ≡ 256
      → Answers spans law x boxes name round 256 net last final p r
  unfolding convo_service
  one-Answers p r answer size = record {
    settings = settings;
    known = known;
    answers = map or_empty (handle_messages final).0;
    handles = ap (λ (s : Service). s.handle_messages settings final) serves;
    full = length-map or_empty (handle_messages final).0 ∙ length-handle_messages final;
    at = get_elem?-map or_empty (handle_messages final).0 p answer;
    fits = size;
  }

  -- Two onions of a batch that no server drops on their way, behind whose layers are the first two
  -- messages of the round to one dead drop: the run of the batch through the chain gives one reply
  -- for each onion, all of one length, and each sender finds the other's box in the reply to its own
  -- onion, when it opens the box of each server.
  pub chain-exchanges :
      {m : ℕ} {conf : PublicServerConfig} {batch : List Bytes} {k k' p p' : ℕ}
      {keys keys' : List Bytes} (onion onion' first second dest : Bytes) (more : List ℕ)
      → Trace x round 256 net m conf batch k keys last final p
      → Trace x round 256 net m conf batch k' keys' last final p'
      → get_elem? batch k ≡ some onion
      → get_elem? batch k' ≡ some onion'
      → Unwraps x round keys onion first
      → Unwraps x round keys' onion' second
      → positions 0 dest final ≡ p ∷ p' ∷ more
      → drop_of first ≡ dest
      → drop_of second ≡ dest
      → length first ≡ 272
      → length second ≡ 272
      → (rs : List Bytes) × (run_chain (suc m) x spans net conf name round batch ≡ some rs)
        × (length rs ≡ length batch)
        × AllSized (m * 16 + 256 + 16) rs
        × ((box : Bytes) × (get_elem? rs k ≡ some box) × Peels x round keys box (body_of second))
        × ((box : Bytes) × (get_elem? rs k' ≡ some box) × Peels x round keys' box (body_of first))
  chain-exchanges {m} {conf} {batch} {k} {k'} {p} {p'} {keys} {keys'} onion onion' first second dest
        more t t' sent sent' inside inside' accesses d d' size size' =
      let (msg, at, unwraps) = Trace-message x round 256 net onion t sent in
      let (msg', at', unwraps') = Trace-message x round 256 net onion' t' sent' in
      let here = at ∙ ap some (Unwraps-unique x round keys onion unwraps inside) in
      let here' = at' ∙ ap some (Unwraps-unique x round keys' onion' unwraps' inside') in
      let (to_first, to_second) =
        handle_messages-exchange final dest first second p p' more here here' accesses d d' in
      let one =
        chain-Replied spans law x boxes name round 256 net (body_of second) t
          (one-Answers p (body_of second) to_first (length-body_of second size')) in
      let two =
        chain-Replied spans law x boxes name round 256 net (body_of first) t'
          (one-Answers p' (body_of first) to_second (length-body_of first size)) in
      let same : two.replies ≡ one.replies = some_inj (sym two.result ∙ one.result) in
      (
        one.replies,
        one.result,
        one.count,
        one.sized,
        (one.box, one.there, one.peels),
        (two.box, ap (λ rs. get_elem? rs k') (sym same) ∙ two.there, two.peels),
      )
