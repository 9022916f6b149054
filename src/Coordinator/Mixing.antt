-- ===== src/Coordinator/Mixing.antt =====
-- How `mixOnions` shares out the replies.
use mathlib.Core.List.{append-nil, append_assoc}
use gjallarhorn.Prelude.{
  ℕ, ◌+◌, ◌-◌, ◌≡◌, refl, sym, ap, ◌∙◌, List, [], ◌∷◌, ◌++◌, Option, some, arith, length, take,
  drop, length-append, drop-drop,
}
use gjallarhorn.Prelude.Bytes.{Bytes}
use gjallarhorn.Coordinator.{OnionBundle, Sent, to_one, reply, lay_out, send_ranges, mix_onions}

-- The onions of all bundles, in order.
unfoldable pub joined : List OnionBundle → List Bytes
joined [] = []
joined (o ∷ out) = o.onions ++ joined out

-- The replies, cut into pieces as long as the bundles, each sent to the bundle's sender.
unfoldable pub shared_out : ℕ → List OnionBundle → List Bytes → List Sent
shared_out round [] replies = []
shared_out round (o ∷ out) replies =
    to_one o.sender (reply round (take (length o.onions) replies))
    ∷ shared_out round out (drop (length o.onions) replies)

lay_out-joined :
    (before : List Bytes) (out : List OnionBundle) → (lay_out before out).0 ≡ before ++ joined out
unfolding lay_out joined
lay_out-joined before [] = sym (append-nil before)
lay_out-joined before (o ∷ out) =
    lay_out-joined (before ++ o.onions) out ∙ append_assoc before o.onions (joined out)

send_ranges-shared_out :
    (round : ℕ) (before replies : List Bytes) (out : List OnionBundle)
    → send_ranges round replies (lay_out before out).1
      ≡ shared_out round out (drop (length before) replies)
unfolding lay_out send_ranges shared_out
send_ranges-shared_out round before replies [] = refl
send_ranges-shared_out round before replies (o ∷ out) =
    let size : length before + length o.onions - length before ≡ length o.onions = omega arith in
    let next : drop (length (before ++ o.onions)) replies
        ≡ drop (length o.onions) (drop (length before) replies) =
      ap (λ n. drop n replies) (length-append before o.onions)
      ∙ sym (drop-drop (length before) (length o.onions) replies) in
    rw (size) (
      ap
        (λ rest.
          to_one o.sender (reply round (take (length o.onions) (drop (length before) replies)))
          ∷ rest)
        (send_ranges-shared_out round (before ++ o.onions) replies out
          ∙ ap (shared_out round out) next))

-- If the mixnet has a reply for the batch of all bundles' onions in order, each sender gets the
-- piece of the replies that stands where its own onions stood in the batch, and nothing else.
pub mix_onions-shared_out :
    (run : List Bytes → Option (List Bytes)) (round : ℕ) (out : List OnionBundle)
    (replies : List Bytes)
    → run (joined out) ≡ some replies
    → mix_onions run round out ≡ shared_out round out replies
unfolding mix_onions
mix_onions-shared_out run round out replies ran =
    rw (mix_onions, lay_out-joined [] out, ran) (send_ranges-shared_out round [] replies out)
