-- ===== src/Mixnet/Fetching.antt =====
-- The client of a mix server fetches the replies of a round: the second half of
-- `RunRoundBidirectional` of mixnet/mixnet.go, against `GetOnions`. The parallel requests write
-- entries of their own and are made in turn; `spans` is `concurrency.Spans`.
pub mod Complete
use gjallarhorn.Prelude.{
  ℕ, zero, suc, ◌+◌, ◌/◌, ◌≡◌, List, [], ◌∷◌, ◌++◌, Option, none, some, if◌then◌else◌, ltb, ◌==◌,
  length, take, drop, copy, replicate,
}
use gjallarhorn.Prelude.Bytes.{Bytes, u32}
use gjallarhorn.Mixnet.Replies.{Slice, refused, panics, onions, get_slice}

pub record Span : Type 0 where
  pub start : ℕ
  pub count : ℕ

-- The contract of `Spans`: the spans lie side by side from `a` to `n`.
abbrev pub Covers : ℕ → List Span → ℕ → Type 0
Covers a [] n = a ≡ n
Covers a (s ∷ ss) n = (s.start ≡ a) × Covers (a + s.count) ss n

unfoldable pub span_size : ℕ → ℕ
span_size num_onions = if num_onions / 5 == 0 then 1 else num_onions / 5

pub record GetOnionsResponse : Type 0 where
  pub offset : ℕ
  pub onions : List Bytes

-- The responses of `GetOnions` for its slice.
unfoldable pub respond : ℕ → List Bytes → List Span → List GetOnionsResponse
respond offset replies [] = []
respond offset replies (span ∷ spans) =
    record {
      offset = u32 (offset + u32 span.start);
      onions = take span.count (drop span.start replies);
    }
    ∷ respond offset replies spans

-- `copy(replies[resp.Offset:], resp.Onions)`; `none` is an offset out of range.
unfoldable pub copy_at : List Bytes → ℕ → List Bytes → Option (List Bytes)
copy_at replies offset src =
    if ltb (length replies) offset
    then none
    else some (take offset replies ++ copy (drop offset replies) src)

-- The loop of `getOnions` over the responses of one request.
unfoldable pub receive_responses : List Bytes → List GetOnionsResponse → Option (List Bytes)
unfolding copy_at
receive_responses replies [] = some replies
receive_responses replies (resp ∷ resps) = elim (copy_at replies resp.offset resp.onions) [
  | none ↦ none
  | some replies' ↦ receive_responses replies' resps
]

-- One request; a refusal is an error.
abbrev pub receive_slice : (ℕ → ℕ → List Span) → ℕ → List Bytes → Slice → Option (List Bytes)
receive_slice spans offset replies refused = none
receive_slice spans offset replies panics = none
receive_slice spans offset replies (onions rs) =
    receive_responses replies (respond offset rs (spans (length rs) 16))

-- The requests of all spans, with the replies so far, to a server that holds `held`.
unfoldable pub fetch_from :
    (ℕ → ℕ → List Span) → List Bytes → List Bytes → List Span → Option (List Bytes)
unfolding get_slice receive_responses respond
fetch_from spans held replies [] = some replies
fetch_from spans held replies (span ∷ rest) =
    elim (receive_slice spans (u32 span.start) replies
      (get_slice (u32 span.start) (u32 span.count) held)) [
        | none ↦ none
        | some replies' ↦ fetch_from spans held replies' rest
      ]

-- The replies of a round of `n` onions, from nil ones.
unfoldable pub fetch_onions : (ℕ → ℕ → List Span) → ℕ → List Bytes → Option (List Bytes)
unfolding fetch_from span_size
fetch_onions spans n held = fetch_from spans held (replicate n []) (spans n (span_size n))
