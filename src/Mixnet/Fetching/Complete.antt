-- ===== src/Mixnet/Fetching/Complete.antt =====
-- Fetching gives every reply, at its place.
use mathlib.Core.Path.{subst}
use gjallarhorn.Prelude.{
  ℕ, zero, suc, ◌+◌, ◌-◌, ◌%◌, ◌≤◌, ◌<◌, ◌≡◌, refl, sym, ap, ◌∙◌, inl, inr, false, List, [], ◌∷◌,
  ◌++◌, some, arith, ltb, length, get_elem?, take, drop, copy, replicate, Bool-cases, length-append,
  length-take, length-drop, length-copy, length-replicate, drop-drop, get_elem?-append_left,
  get_elem?-take, get_elem?-drop, get_elem?-ext,
}
use gjallarhorn.Prelude.Bytes.{Bytes, u32}
use gjallarhorn.Mixnet.Replies.{onions, get_slice}
use gjallarhorn.Mixnet.Replies.Slices.{get_slice-within}
use gjallarhorn.Mixnet.Fetching.{
  Span, Covers, span_size, GetOnionsResponse, respond, copy_at, receive_responses, fetch_from,
  fetch_onions,
}

get_elem?-copy :
    (dst src : List Bytes) (k : ℕ)
    → k < length src
    → k < length dst
    → get_elem? (copy dst src) k ≡ get_elem? src k
get_elem?-copy [] src k a b = absurd (omega arith)
get_elem?-copy (d ∷ dst) [] k a b = absurd (omega arith)
get_elem?-copy (d ∷ dst) (s ∷ src) zero a b = refl
get_elem?-copy (d ∷ dst) (s ∷ src) (suc k) a b =
    get_elem?-copy dst src k (omega arith) (omega arith)

get_elem?-append_right :
    (xs ys : List Bytes) (k : ℕ) → get_elem? (xs ++ ys) (length xs + k) ≡ get_elem? ys k
get_elem?-append_right [] ys k = let e : 0 + k ≡ k = omega arith in rw e
get_elem?-append_right (x ∷ xs) ys k =
    let e : suc (length xs) + k ≡ suc (length xs + k) = omega arith in
    rw e (get_elem?-append_right xs ys k)

take-take : (n c : ℕ) (xs : List Bytes) → n ≤ c → take n (take c xs) ≡ take n xs
take-take zero c xs h = refl
take-take (suc n) zero xs h = absurd (omega arith)
take-take (suc n) (suc c) [] h = refl
take-take (suc n) (suc c) (x ∷ xs) h = ap (◌∷◌ x) (take-take n c xs (omega arith))

pub span_size-positive : (n : ℕ) → 0 < span_size n
unfolding span_size
span_size-positive n = ground arith

-- A piece of a slice is a piece of the whole.
pub take-drop-take :
    (xs : List Bytes) (s n c : ℕ) → s + n ≤ c → take n (drop s (take c xs)) ≡ take n (drop s xs)
take-drop-take xs zero n c h = take-take n c xs (omega arith)
take-drop-take xs (suc s) n zero h = absurd (omega arith)
take-drop-take [] (suc s) n (suc c) h = refl
take-drop-take (x ∷ xs) (suc s) n (suc c) h = take-drop-take xs s n c (omega arith)

receive_step :
    (replies r1 r2 src src' : List Bytes) (o o' : ℕ) (resps : List GetOnionsResponse)
    → o ≡ o'
    → src ≡ src'
    → copy_at replies o' src' ≡ some r1
    → receive_responses r1 resps ≡ some r2
    → receive_responses replies (record { offset = o; onions = src } ∷ resps) ≡ some r2
unfolding receive_responses
receive_step replies r1 r2 src src' o o' resps e e' done rest =
    rw (receive_responses, e, e', done) rest

module _ (held : List Bytes) where
  -- The first `a` replies are there.
  record Fetched (a : ℕ) (replies : List Bytes) : Type 0 where
    pub size : length replies ≡ length held
    pub same : (j : ℕ) → j < a → get_elem? replies j ≡ get_elem? held j

  copy_at-Fetched :
      (a c : ℕ) (replies : List Bytes)
      → a + c ≤ length held
      → Fetched a replies
      → (replies' : List Bytes) × (copy_at replies a (take c (drop a held)) ≡ some replies')
        × Fetched (a + c) replies'
  unfolding copy_at
  copy_at-Fetched a c replies fits f =
      let within : ltb (length replies) a ≡ false = ground (arith, f.size) in
      let src = take c (drop a held) in
      (
        take a replies ++ copy (drop a replies) src,
        rw (copy_at, within),
        record {
          size = omega (
            arith,
            length-append (take a replies) (copy (drop a replies) src),
            length-take a replies,
            length-copy (drop a replies) src,
            length-drop a replies,
            f.size,
          );
          same = λ j lt. elim (Bool-cases (ltb j a)) [
            | inl old ↦
                get_elem?-append_left (take a replies) (copy (drop a replies) src) j
                  (ground (arith, length-take a replies, f.size))
                ∙ get_elem?-take replies a j (ground arith)
                ∙ f.same j (ground arith)
            | inr new ↦
                let there : j ≡ length (take a replies) + (j - a) =
                  ground (arith, length-take a replies, f.size) in
                let back : a + (j - a) ≡ j = ground arith in
                ap (get_elem? (take a replies ++ copy (drop a replies) src)) there
                ∙ get_elem?-append_right (take a replies) (copy (drop a replies) src) (j - a)
                ∙ get_elem?-copy (drop a replies) src (j - a)
                    (ground (arith, length-take c (drop a held), length-drop a held))
                    (ground (arith, length-drop a replies, f.size))
                ∙ get_elem?-take (drop a held) c (j - a) (ground arith)
                ∙ get_elem?-drop a (j - a) held
                ∙ ap (get_elem? held) back
          ];
        },
      )

  pub Covers-le : (a n : ℕ) (ss : List Span) → Covers a ss n → a ≤ n
  Covers-le a n [] c = omega arith
  Covers-le a n (s ∷ ss) (e, c) = omega (arith, Covers-le (a + s.count) n ss c)

  receive_responses-Fetched :
      (offset count b : ℕ) (ss : List Span) (replies : List Bytes)
      → offset + count ≤ length held
      → length held < 4294967296
      → Covers b ss count
      → Fetched (offset + b) replies
      → (replies' : List Bytes) × (receive_responses replies
            (respond offset (take count (drop offset held)) ss)
          ≡ some replies')
        × Fetched (offset + count) replies'
  unfolding receive_responses respond
  receive_responses-Fetched offset count b [] replies fits small c f = (replies, refl, rw (sym c) f)
  receive_responses-Fetched offset count b (s ∷ ss) replies fits small (e, c) f =
      let le = Covers-le (b + s.count) count ss c in
      let at : (offset + s.start % 4294967296) % 4294967296 ≡ offset + b = omega arith in
      let piece : take s.count (drop s.start (take count (drop offset held)))
          ≡ take s.count (drop (offset + b) held) =
        take-drop-take (drop offset held) s.start s.count count (omega arith)
        ∙ ap (take s.count) (drop-drop offset s.start held)
        ∙ ap (λ k. take s.count (drop (offset + k) held)) e in
      let (r1, done, f1) = copy_at-Fetched (offset + b) s.count replies (omega arith) f in
      let next : offset + b + s.count ≡ offset + (b + s.count) = omega arith in
      let (r2, rest, f2) =
        receive_responses-Fetched offset count (b + s.count) ss r1 fits small c (rw next at f1) in
      (
        r2,
        receive_step replies r1 r2 (take s.count (drop s.start (take count (drop offset held))))
            (take s.count (drop (offset + b) held)) ((offset + s.start % 4294967296) % 4294967296)
            (offset + b) (respond offset (take count (drop offset held)) ss) at piece done rest,
        f2,
      )

  fetch_step :
      (spans : ℕ → ℕ → List Span) (replies r1 r2 rs : List Bytes) (span : Span) (rest : List Span)
      → get_slice (u32 span.start) (u32 span.count) held ≡ onions rs
      → receive_responses replies (respond (u32 span.start) rs (spans (length rs) 16)) ≡ some r1
      → fetch_from spans held r1 rest ≡ some r2
      → fetch_from spans held replies (span ∷ rest) ≡ some r2
  unfolding fetch_from
  fetch_step spans replies r1 r2 rs span rest slice one others = rw (fetch_from, slice, one) others

  module _ (spans : ℕ → ℕ → List Span) (law : (n size : ℕ) → 0 < size → Covers 0 (spans n size) n)
      (small : length held < 4294967296) where
    fetch_from-Fetched :
        (a : ℕ) (ss : List Span) (replies : List Bytes)
        → Covers a ss (length held)
        → Fetched a replies
        → (replies' : List Bytes) × (fetch_from spans held replies ss ≡ some replies')
          × Fetched (length held) replies'
    unfolding fetch_from
    fetch_from-Fetched a [] replies c f = (replies, refl, rw (sym c) f)
    fetch_from-Fetched a (s ∷ ss) replies (e, c) f =
        let le = Covers-le (a + s.count) (length held) ss c in
        let rs = take s.count (drop a held) in
        let full : length rs ≡ s.count =
          omega (arith, length-take s.count (drop a held), length-drop a held) in
        let start : u32 s.start ≡ a = omega arith in
        let count : u32 s.count ≡ s.count = omega arith in
        let zero_more : a + 0 ≡ a = omega arith in
        let (r1, one, f1) =
          receive_responses-Fetched a s.count 0 (spans (length rs) 16) replies (omega arith) small
            (subst (λ k. Covers 0 (spans (length rs) 16) k) full (law (length rs) 16 (omega arith)))
            (rw zero_more f) in
        let (r2, others, f2) = fetch_from-Fetched (a + s.count) ss r1 c f1 in
        (
          r2,
          fetch_step spans replies r1 r2 rs s ss
              (ap (λ o. get_slice o (u32 s.count) held) start
                ∙ ap (λ k. get_slice a k held) count
                ∙ get_slice-within a s.count held (omega arith) small)
              (ap (λ o. receive_responses replies (respond o rs (spans (length rs) 16))) start
                ∙ one)
              others,
          f2,
        )

    -- A client that asks a server for the replies of a round, in any spans that cover them, gets
    -- exactly what the server holds, at its place, if that is less than 2^32 replies.
    pub fetch_onions-held : fetch_onions spans (length held) held ≡ some held
    unfolding fetch_onions
    fetch_onions-held =
        let size = span_size (length held) in
        let (rs, done, f) =
          fetch_from-Fetched 0 (spans (length held) size) (replicate (length held) [])
            (law (length held) size (span_size-positive (length held)))
            (record {
              size = length-replicate (length held) [];
              same = λ j lt. absurd (omega arith);
            }) in
        done ∙ ap some (get_elem?-ext rs held f.size f.same)
