-- ===== src/Mixnet/Adding/Placed.antt =====
-- Every onion that a client adds gets to its own place of the round.
use mathlib.Core.List.{append-nil, append_assoc}
use mathlib.Core.Path.{subst}
use gjallarhorn.Prelude.{
  ℕ, ◌+◌, ◌-◌, ◌%◌, ◌≤◌, ◌<◌, ◌≡◌, ◌≢◌, refl, sym, ap, ◌∙◌, inl, inr, true, false, List, [], ◌∷◌,
  ◌++◌, some, arith, ltb, length, get_elem?, take, drop, Bool-cases, length-take, length-drop,
  drop-drop, get_elem?-take, get_elem?-drop, get_elem?-lt_length,
}
use gjallarhorn.Prelude.Bytes.{Bytes, u32}
use gjallarhorn.Mixnet.Replies.{Box, forward_nonce}
use gjallarhorn.Mixnet.Rounds.{responds, OnionsRequest, RoundState}
use gjallarhorn.Mixnet.Rounds.Onions.{receive_onions, receive_all, run_jobs}
use gjallarhorn.Mixnet.Rounds.Onions.Positions.{HasRoom, shared_key, opened, decrypt_from-Fills}
use gjallarhorn.Mixnet.Fetching.{Span, Covers, span_size}
use gjallarhorn.Mixnet.Fetching.Complete.{take-drop-take, Covers-le, span_size-positive}
use gjallarhorn.Mixnet.Adding.{stream_from, stream_add_onions, add_from, add_requests}

module _ (onions : List Bytes) (small : length onions < 4294967296) where
  -- Requests that lie side by side on the batch, from `a` to `b`.
  abbrev pub Tiles : ℕ → List OnionsRequest → ℕ → Type 0
  Tiles a [] b = a ≡ b
  Tiles a (r ∷ rs) b =
      (r.offset ≡ a)
      × ((k : ℕ) → k < length r.onions → get_elem? r.onions k ≡ get_elem? onions (a + k))
      × (a + length r.onions ≤ length onions)
      × Tiles (a + length r.onions) rs b

  Tiles-append :
      (a b c : ℕ) (rs ss : List OnionsRequest) → Tiles a rs b → Tiles b ss c → Tiles a (rs ++ ss) c
  Tiles-append a b c [] ss e t = subst (λ x. Tiles x ss c) (sym e) t
  Tiles-append a b c (r ∷ rs) ss (o, same, fits, u) t =
      (o, same, fits, Tiles-append (a + length r.onions) b c rs ss u t)

  tile :
      (a n o b : ℕ) (xs : List Bytes) (rest : List OnionsRequest)
      → o ≡ a
      → xs ≡ take n (drop a onions)
      → a + n ≤ length onions
      → Tiles (a + n) rest b
      → Tiles a (record { offset = o; onions = xs } ∷ rest) b
  tile a n o b xs rest eo e fits t =
      let len : length xs ≡ n =
        ap length e ∙ omega (arith, length-take n (drop a onions), length-drop a onions) in
      (
        eo,
        λ k lt.
            ap (λ ys. get_elem? ys k) e
            ∙ get_elem?-take (drop a onions) n k (omega arith)
            ∙ get_elem?-drop a k onions,
        omega arith,
        subst (λ l. Tiles (a + l) rest b) (sym len) t,
      )

  stream_from-Tiles :
      (offset count a : ℕ) (ss : List Span)
      → offset + count ≤ length onions
      → Covers a ss count
      → Tiles
          (offset + a)
          (stream_from offset (take count (drop offset onions)) ss)
          (offset + count)
  unfolding stream_from
  stream_from-Tiles offset count a [] fits c = ap (λ k. offset + k) c
  stream_from-Tiles offset count a (s ∷ ss) fits (e, c) =
      let le = Covers-le onions (a + s.count) count ss c in
      let piece : take s.count (drop s.start (take count (drop offset onions)))
          ≡ take s.count (drop (offset + a) onions) =
        take-drop-take (drop offset onions) s.start s.count count (omega arith)
        ∙ ap (take s.count) (drop-drop offset s.start onions)
        ∙ ap (λ k. take s.count (drop (offset + k) onions)) e in
      let next : offset + (a + s.count) ≡ offset + a + s.count = omega arith in
      tile (offset + a) s.count ((offset + s.start) % 4294967296) (offset + count)
        (take s.count (drop s.start (take count (drop offset onions))))
        (stream_from offset (take count (drop offset onions)) ss) (omega arith) piece (omega arith)
        (subst
          (λ k. Tiles k (stream_from offset (take count (drop offset onions)) ss) (offset + count))
          next (stream_from-Tiles offset count (a + s.count) ss fits c))

  module _ (spans : ℕ → ℕ → List Span)
      (law : (n size : ℕ) → 0 < size → Covers 0 (spans n size) n) where
    -- The requests of the stream for one span.
    pub span-Tiles :
        (s : Span)
        → s.start + s.count ≤ length onions
        → Tiles s.start
            (stream_add_onions spans s.start (take s.count (drop s.start onions)))
            (s.start + s.count)
    unfolding stream_add_onions
    span-Tiles s le =
        let slice = take s.count (drop s.start onions) in
        let full : length slice ≡ s.count =
          omega (arith, length-take s.count (drop s.start onions), length-drop s.start onions) in
        let first : s.start + 0 ≡ s.start = omega arith in
        subst (λ k. Tiles k (stream_add_onions spans s.start slice) (s.start + s.count)) first
          (stream_from-Tiles s.start s.count 0 (spans (length slice) 16) le (
            subst (λ k. Covers 0 (spans (length slice) 16) k) full
              (law (length slice) 16 (omega arith))))

    add_from-Tiles :
        (a : ℕ) (ss : List Span)
        → Covers a ss (length onions)
        → Tiles a (add_from spans onions ss) (length onions)
    unfolding add_from
    add_from-Tiles a [] c = c
    add_from-Tiles a (s ∷ ss) (e, c) =
        let le = Covers-le onions (a + s.count) (length onions) ss c in
        let last : s.start + s.count ≡ a + s.count = omega arith in
        let slice = take s.count (drop s.start onions) in
        Tiles-append a (a + s.count) (length onions) (stream_add_onions spans s.start slice)
          (add_from spans onions ss)
          (subst (λ k. Tiles k (stream_add_onions spans s.start slice) (a + s.count)) e
            (subst (λ k. Tiles s.start (stream_add_onions spans s.start slice) k) last
              (span-Tiles s (omega arith))))
          (add_from-Tiles (a + s.count) ss c)

    pub add_requests-Tiles : Tiles 0 (add_requests spans onions) (length onions)
    unfolding add_requests
    add_requests-Tiles =
        add_from-Tiles 0 (spans (length onions) (span_size (length onions)))
          (law (length onions) (span_size (length onions)) (span_size-positive (length onions)))

  -- A round that accepts onions takes such requests, all of them.
  pub receive_all-Tiles :
      (num a b : ℕ) (st : RoundState) (rs : List OnionsRequest)
      → num ≡ length onions
      → st.accepting_onions ≡ true
      → Tiles a rs b
      → receive_all num st rs ≡ (record st { jobs = st.jobs ++ rs }, responds tt)
  unfolding receive_all receive_onions
  receive_all-Tiles num a b st [] size accepting t =
      ap (λ js. (record st { jobs = js }, responds tt)) (sym (append-nil st.jobs))
  receive_all-Tiles num a b st (r ∷ rs) size accepting (o, same, fits, t) =
      let fine : ltb num (u32 (r.offset + u32 (length r.onions))) ≡ false = ground arith in
      let step : receive_onions num st r ≡ responds (record st { jobs = st.jobs ++ (r ∷ []) }) =
        rw (receive_onions, fine, accepting) in
      rw (receive_all, step)
        (receive_all-Tiles num (a + length r.onions) b (record st { jobs = st.jobs ++ (r ∷ []) }) rs
            size accepting t
          ∙ ap (λ js. (record st { jobs = js }, responds tt)) (append_assoc st.jobs (r ∷ []) rs))

  pub record Placed (x : Box) (round a : ℕ) (st st' : RoundState) : Type 0 where
    pub room : length st'.incoming ≡ length onions
    pub has_room : HasRoom x round st'
    pub key_kept : st'.onion_private_key ≡ st.onion_private_key
    pub size_kept : st'.incoming_onion_size ≡ st.incoming_onion_size
    pub placed :
        (k : ℕ) (onion : Bytes)
        → k < a
        → get_elem? onions k ≡ some onion
        → length onion ≡ st.incoming_onion_size
        → (get_elem? st'.incoming k ≡ some (opened x round st onion))
          × (get_elem? st'.shared_keys k ≡ some (shared_key x round st onion))
    pub skipped :
        (k : ℕ) (onion : Bytes)
        → k < a
        → get_elem? onions k ≡ some onion
        → length onion ≢ st.incoming_onion_size
        → get_elem? st'.incoming k ≡ get_elem? st.incoming k
    pub later : (k : ℕ) → a ≤ k → get_elem? st'.incoming k ≡ get_elem? st.incoming k
    pub frame : st' ≡ record st { incoming = st'.incoming; shared_keys = st'.shared_keys }

  module _ (x : Box) (round : ℕ) (st : RoundState) where
    opened_kept :
        (st' : RoundState) (onion : Bytes)
        → st'.onion_private_key ≡ st.onion_private_key
        → (opened x round st' onion ≡ opened x round st onion)
          × (shared_key x round st' onion ≡ shared_key x round st onion)
    opened_kept st' onion e = (
      ap
          (λ key.
            x.open_after (drop 32 onion) (forward_nonce round) (x.precompute (take 32 onion) key))
          e,
      ap (λ key. x.precompute (take 32 onion) key) e,
    )

    pub run_jobs-Placed :
        (a b : ℕ) (st1 : RoundState) (rs : List OnionsRequest)
        → Tiles a rs b
        → Placed x round a st st1
        → (st2 : RoundState) × (run_jobs x round st1 rs ≡ some (record st2 { jobs = [] }))
          × Placed x round b st st2
    unfolding run_jobs
    run_jobs-Placed a b st1 [] e p = (st1, refl, subst (λ k. Placed x round k st st1) e p)
    run_jobs-Placed a b st1 (r ∷ rs) (o, same, fits, t) p =
        let (st2, f) =
          decrypt_from-Fills x round st1 r.offset r.onions p.has_room (omega (arith, p.room)) in
        let (st3, done, q) = run_jobs-Placed (a + length r.onions) b st2 rs t (record {
          room = f.room ∙ p.room;
          has_room = f.has_room;
          key_kept = f.key_kept ∙ p.key_kept;
          size_kept = f.size_kept ∙ p.size_kept;
          placed = λ k onion lt e size. elim (Bool-cases (ltb k a)) [
            | inl old ↦
                let (i, s) = p.placed k onion (ground arith) e size in
                let (i', s') = f.others k (inl (ground arith)) in (i' ∙ i, s' ∙ s)
            | inr new ↦
                let back : a + (k - a) ≡ k = ground arith in
                let there : r.offset + (k - a) ≡ k = ground arith in
                let (i, s) =
                  f.opens (k - a) onion
                    (same (k - a) (ground arith) ∙ ap (get_elem? onions) back ∙ e)
                    (size ∙ sym p.size_kept) in
                let (same_msg, same_key) = opened_kept st1 onion p.key_kept in
                (
                  ap (get_elem? st2.incoming) (sym there) ∙ i ∙ ap some same_msg,
                  ap (get_elem? st2.shared_keys) (sym there) ∙ s ∙ ap some same_key,
                )
          ];
          skipped = λ k onion lt e size. elim (Bool-cases (ltb k a)) [
            | inl old ↦
                (f.others k (inl (ground arith))).0 ∙ p.skipped k onion (ground arith) e size
            | inr new ↦
                let back : a + (k - a) ≡ k = ground arith in
                let there : r.offset + (k - a) ≡ k = ground arith in
                ap (get_elem? st2.incoming) (sym there)
                ∙ f.skips (k - a) onion
                    (same (k - a) (ground arith) ∙ ap (get_elem? onions) back ∙ e)
                    (λ h. size (h ∙ p.size_kept))
                ∙ ap (get_elem? st1.incoming) there
                ∙ p.later k (ground arith)
          ];
          later = λ k le. (f.others k (inr (omega arith))).0 ∙ p.later k (omega arith);
          frame =
              let keep : RoundState → RoundState =
                λ s. record s { incoming = st2.incoming; shared_keys = st2.shared_keys } in
              f.frame ∙ ap keep p.frame;
        }) in
        (st3, rw (run_jobs, f.result) done, q)

module _ (spans : ℕ → ℕ → List Span) (law : (n size : ℕ) → 0 < size → Covers 0 (spans n size) n)
    (x : Box) (round : ℕ) (onions : List Bytes) where
  -- A two-way round with room for a batch takes all the requests that the client makes of it, in
  -- any spans that cover it; when the workers have run, onion `k`, if it has the right size, has
  -- been decrypted at place `k`, with its key kept there.
  pub add_requests-opened :
      (st : RoundState) (k : ℕ) (onion : Bytes)
      → length onions < 4294967296
      → HasRoom x round st
      → st.accepting_onions ≡ true
      → st.jobs ≡ []
      → st.num_incoming ≡ length onions
      → length st.incoming ≡ length onions
      → get_elem? onions k ≡ some onion
      → length onion ≡ st.incoming_onion_size
      → (st' : RoundState) × (receive_all st.num_incoming st (add_requests spans onions)
          ≡ (record st { jobs = add_requests spans onions }, responds tt))
        × (run_jobs x round
              (record st { jobs = add_requests spans onions })
              (add_requests spans onions)
            ≡ some (record st' { jobs = [] }))
        × (get_elem? st'.incoming k ≡ some (opened x round st onion))
        × (get_elem? st'.shared_keys k ≡ some (shared_key x round st onion))
  add_requests-opened st k onion small has accepting idle num room e size =
      let reqs = add_requests spans onions in
      let tiles = add_requests-Tiles onions small spans law in
      let (st', ran, p) =
        run_jobs-Placed onions small x round (record st { jobs = reqs }) 0 (length onions)
          (record st { jobs = reqs }) reqs tiles
          (record {
            room = room;
            has_room = record { both_ways = has.both_ways; same_length = has.same_length };
            key_kept = refl;
            size_kept = refl;
            placed = λ k onion lt. absurd (omega arith);
            skipped = λ k onion lt. absurd (omega arith);
            later = λ k le. refl;
            frame = refl;
          }) in
      let (i, s) = p.placed k onion (get_elem?-lt_length onions k e) e size in
      (
        st',
        receive_all-Tiles onions small st.num_incoming 0 (length onions) st reqs num accepting tiles
            ∙ ap (λ js. (record st { jobs = js ++ reqs }, responds tt)) idle,
        ran,
        i,
        s,
      )
