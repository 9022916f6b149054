-- ===== src/Mixnet/Adding.antt =====
-- The client of a mix server adds the onions of a round: `addOnions` and `streamAddOnions` of
-- mixnet/mixnet.go. The streams of the spans run at once; their requests are taken in turn.
pub mod Placed
use gjallarhorn.Prelude.{ℕ, ◌+◌, List, [], ◌∷◌, ◌++◌, length, take, drop}
use gjallarhorn.Prelude.Bytes.{Bytes, u32}
use gjallarhorn.Mixnet.Rounds.{OnionsRequest}
use gjallarhorn.Mixnet.Fetching.{Span, span_size}

-- The loop of `streamAddOnions` over its spans.
unfoldable pub stream_from : ℕ → List Bytes → List Span → List OnionsRequest
stream_from offset onions [] = []
stream_from offset onions (span ∷ spans) =
    record { offset = u32 (offset + span.start); onions = take span.count (drop span.start onions) }
    ∷ stream_from offset onions spans

unfoldable pub stream_add_onions : (ℕ → ℕ → List Span) → ℕ → List Bytes → List OnionsRequest
unfolding stream_from
stream_add_onions spans offset onions = stream_from offset onions (spans (length onions) 16)

-- A stream for each span of the batch.
unfoldable pub add_from : (ℕ → ℕ → List Span) → List Bytes → List Span → List OnionsRequest
unfolding stream_add_onions
add_from spans onions [] = []
add_from spans onions (span ∷ rest) =
    stream_add_onions spans span.start (take span.count (drop span.start onions))
    ++ add_from spans onions rest

unfoldable pub add_requests : (ℕ → ℕ → List Span) → List Bytes → List OnionsRequest
unfolding add_from span_size
add_requests spans onions =
    add_from spans onions (spans (length onions) (span_size (length onions)))
