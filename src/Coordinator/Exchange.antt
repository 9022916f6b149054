-- ===== src/Coordinator/Exchange.antt =====
-- A round of two clients, from the coordinator's table through the whole chain of servers and back:
-- `mixOnions` of coordinator/server.go with the mixnet of mixnet/mixnet.go.
use gjallarhorn.Prelude.{
  ℕ, zero, suc, ◌+◌, ◌<◌, ◌≤◌, ◌≡◌, refl, ap, ◌∙◌, List, [], ◌∷◌, ◌++◌, some, arith, length, take,
  drop, get_elem?, get_elem?-append_some, get_elem?-drop, get_elem?-take, get_elem?-lt_length,
  length-append, length-take, length-drop, drop-drop, some_inj,
}
use gjallarhorn.Prelude.Bytes.{Bytes}
use gjallarhorn.Mixnet.Settings.{RoundSettings, PublicServerConfig}
use gjallarhorn.Mixnet.Replies.{Box, IsBox}
use gjallarhorn.Mixnet.Fetching.{Span, Covers}
use gjallarhorn.Mixnet.Chain.{Stage, Network, run_chain}
use gjallarhorn.Mixnet.Chain.Trace.{Peels, Trace}
use gjallarhorn.Mixnet.Chain.Message.{Unwraps}
use gjallarhorn.Convo.{drop_of, body_of}
use gjallarhorn.Convo.Exchange.{positions}
use gjallarhorn.Convo.Service.{NoiseSource, convo_service}
use gjallarhorn.Convo.Across.{chain-exchanges}
use gjallarhorn.Coordinator.{OnionBundle, Sent, to_one, reply, mix_onions}
use gjallarhorn.Coordinator.Mixing.{joined, shared_out, mix_onions-shared_out}

-- Where the onions of bundle `i` begin in the batch.
unfoldable pub start_of : ℕ → List OnionBundle → ℕ
start_of i [] = 0
start_of zero (o ∷ out) = 0
start_of (suc i) (o ∷ out) = length o.onions + start_of i out

-- Onion `j` of bundle `i`.
pub record Placed (out : List OnionBundle) (i j : ℕ) (onion : Bytes) : Type 0 where
  pub bundle : OnionBundle
  pub there : get_elem? out i ≡ some bundle
  pub sent : get_elem? bundle.onions j ≡ some onion

get_elem?-skip :
    (xs ys : List Bytes) (k : ℕ) → get_elem? (xs ++ ys) (length xs + k) ≡ get_elem? ys k
get_elem?-skip [] ys k = let e : 0 + k ≡ k = omega arith in rw e
get_elem?-skip (x ∷ xs) ys k =
    let e : suc (length xs) + k ≡ suc (length xs + k) = omega arith in rw e (get_elem?-skip xs ys k)

get_elem?-joined :
    (out : List OnionBundle) (i j : ℕ) (o : OnionBundle) {onion : Bytes}
    → get_elem? out i ≡ some o
    → get_elem? o.onions j ≡ some onion
    → get_elem? (joined out) (start_of i out + j) ≡ some onion
unfolding joined start_of
get_elem?-joined [] i j o at sent = cc
get_elem?-joined (b ∷ out) zero j o at sent =
    let same : b ≡ o = some_inj at in
    let e : 0 + j ≡ j = omega arith in
    rw e (
      get_elem?-append_some b.onions (joined out) j
        (ap (λ (c : OnionBundle). get_elem? c.onions j) same ∙ sent))
get_elem?-joined (b ∷ out) (suc i) j o at sent =
    let e : length b.onions + start_of i out + j ≡ length b.onions + (start_of i out + j) =
      omega arith in
    rw e (
      get_elem?-skip b.onions (joined out) (start_of i out + j)
      ∙ get_elem?-joined out i j o at sent)

start_of-fits :
    (out : List OnionBundle) (i : ℕ) (o : OnionBundle)
    → get_elem? out i ≡ some o
    → start_of i out + length o.onions ≤ length (joined out)
unfolding joined start_of
start_of-fits [] i o at = cc
start_of-fits (b ∷ out) zero o at =
    let same : length b.onions ≡ length o.onions =
      ap (λ (c : OnionBundle). length c.onions) (some_inj at) in
    omega (arith, same, length-append b.onions (joined out))
start_of-fits (b ∷ out) (suc i) o at =
    omega (arith, start_of-fits out i o at, length-append b.onions (joined out))

get_elem?-shared_out :
    (round : ℕ) (out : List OnionBundle) (replies : List Bytes) (i : ℕ) (o : OnionBundle)
    → get_elem? out i ≡ some o
    → get_elem? (shared_out round out replies) i
      ≡ some
          (to_one o.sender (reply round (take (length o.onions) (drop (start_of i out) replies))))
unfolding shared_out start_of
get_elem?-shared_out round [] replies i o at = cc
get_elem?-shared_out round (b ∷ out) replies zero o at =
    ap (λ (c : OnionBundle). some (to_one c.sender (reply round (take (length c.onions) replies))))
      (some_inj at)
get_elem?-shared_out round (b ∷ out) replies (suc i) o at =
    get_elem?-shared_out round out (drop (length b.onions) replies) i o at
    ∙ ap (λ rs. some (to_one o.sender (reply round (take (length o.onions) rs))))
        (drop-drop (length b.onions) (start_of i out) replies)

length-shared_out :
    (round : ℕ) (out : List OnionBundle) (replies : List Bytes)
    → length (shared_out round out replies) ≡ length out
unfolding shared_out
length-shared_out round [] replies = refl
length-shared_out round (o ∷ out) replies =
    ap suc (length-shared_out round out (drop (length o.onions) replies))

module _ (x : Box) (round : ℕ) where
  -- Message `i` of what the coordinator sends is the piece of the replies for this bundle, whose box
  -- for onion `j` its sender opens with these keys to `r`.
  pub record Receives (sents : List Sent) (o : OnionBundle) (i j : ℕ) (keys : List Bytes)
      (r : Bytes) : Type 0 where
    pub piece : List Bytes
    pub box : Bytes
    pub sent : get_elem? sents i ≡ some (to_one o.sender (reply round piece))
    pub whole : length piece ≡ length o.onions
    pub there : get_elem? piece j ≡ some box
    pub peels : Peels x round keys box r

  shared_out-Receives :
      (out : List OnionBundle) (replies : List Bytes) (i j : ℕ) {onion box r : Bytes}
      {keys : List Bytes} (at : Placed out i j onion)
      → length replies ≡ length (joined out)
      → get_elem? replies (start_of i out + j) ≡ some box
      → Peels x round keys box r
      → Receives (shared_out round out replies) at.bundle i j keys r
  shared_out-Receives out replies i j {onion} {box} {r} {keys} at full there peels =
      let o = at.bundle in
      let inside : j < length o.onions = get_elem?-lt_length o.onions j at.sent in
      record {
        piece = take (length o.onions) (drop (start_of i out) replies);
        box = box;
        sent = get_elem?-shared_out round out replies i o at.there;
        whole = omega (
          arith,
          full,
          start_of-fits out i o at.there,
          length-take (length o.onions) (drop (start_of i out) replies),
          length-drop (start_of i out) replies,
        );
        there =
            get_elem?-take (drop (start_of i out) replies) (length o.onions) j inside
            ∙ (get_elem?-drop (start_of i out) j replies ∙ there);
        peels = peels;
      }

-- Two onions of two bundles of a round, of which no server drops one on its way, and behind whose
-- layers are the first two messages of the round to one dead drop. When the coordinator mixes the
-- round, through a chain of any number of servers, it sends for each bundle one message, in the two
-- bundles' messages as many replies as the bundle has onions, and there, at the place of the onion
-- in its bundle, each of the two senders finds the other's box, when it opens the box of each server.
pub mix_onions-exchanges :
    (spans : ℕ → ℕ → List Span) (law : (n size : ℕ) → 0 < size → Covers 0 (spans n size) n)
    (x : Box) (boxes : IsBox x) (name : Bytes) (round : ℕ) (net : Network) (n : NoiseSource)
    {last : Stage} {final : List Bytes} (settings : RoundSettings)
    (serves : last.service ≡ convo_service n) (known : last.state.settings ≡ some settings) {m : ℕ}
    {conf : PublicServerConfig} {out : List OnionBundle} {i i' j j' p p' : ℕ}
    {keys keys' : List Bytes} {onion onion' : Bytes} (first second dest : Bytes) (more : List ℕ)
    (at : Placed out i j onion) (at' : Placed out i' j' onion')
    → Trace x round 256 net m conf (joined out) (start_of i out + j) keys last final p
    → Trace x round 256 net m conf (joined out) (start_of i' out + j') keys' last final p'
    → Unwraps x round keys onion first
    → Unwraps x round keys' onion' second
    → positions 0 dest final ≡ p ∷ p' ∷ more
    → drop_of first ≡ dest
    → drop_of second ≡ dest
    → length first ≡ 272
    → length second ≡ 272
    → (sents : List Sent) × (mix_onions (run_chain (suc m) x spans net conf name round) round out
        ≡ sents)
      × (length sents ≡ length out)
      × Receives x round sents at.bundle i j keys (body_of second)
      × Receives x round sents at'.bundle i' j' keys' (body_of first)
mix_onions-exchanges spans law x boxes name round net n settings serves known {out} {i} {i'} {j}
      {j'} {onion} {onion'} first second dest more at at' t t' inside inside' accesses d d' size
      size' =
    let (rs, ran, full, sized, (box, there, peels), (box', there', peels')) =
      chain-exchanges spans law x boxes name round net n settings serves known onion onion' first
        second dest more t t' (get_elem?-joined out i j at.bundle at.there at.sent)
        (get_elem?-joined out i' j' at'.bundle at'.there at'.sent) inside inside' accesses d d' size
        size' in
    (
      shared_out round out rs,
      mix_onions-shared_out (run_chain _ x spans net _ name round) round out rs ran,
      length-shared_out round out rs,
      shared_out-Receives x round out rs i j at full there peels,
      shared_out-Receives x round out rs i' j' at' full there' peels',
    )
