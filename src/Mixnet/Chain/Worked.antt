-- ===== src/Mixnet/Chain/Worked.antt =====
-- What a server has decrypted when the streams of a batch are through.
use gjallarhorn.Prelude.{
  ℕ, ◌+◌, ◌<◌, ◌≡◌, ◌≢◌, refl, sym, ap, ◌∙◌, Bool, true, false, List, [], ◌∷◌, ◌++◌, Option, none,
  some, if◌then◌else◌, ltb, ◌==◌, arith, length, get_elem?, take, drop, replicate, map, Bool-cases,
  inl, inr, length-map, length-replicate, get_elem?-map, get_elem?-some, get_elem?-replicate,
  get_elem?-ext, get_elem?-lt_length,
}
use mathlib.Core.List.{append_assoc, append-nil}
use gjallarhorn.Prelude.Bytes.{Bytes, zeros}
use gjallarhorn.Mixnet.Replies.{Box}
use gjallarhorn.Mixnet.Rounds.{Outcome, responds, RpcError, Service, RoundState}
use gjallarhorn.Mixnet.Rounds.Onions.{begin_onions, receive_all, run_jobs, and_then}
use gjallarhorn.Mixnet.Rounds.Onions.Positions.{shared_key, opened}
use gjallarhorn.Mixnet.Rounds.Closing.{World, close_open, mix_round}
use gjallarhorn.Mixnet.Fetching.{Span, Covers, span_size}
use gjallarhorn.Mixnet.Fetching.Complete.{Covers-le, span_size-positive}
use gjallarhorn.Mixnet.Adding.{stream_add_onions, add_from, add_requests}
use gjallarhorn.Mixnet.Adding.Placed.{
  Placed, span-Tiles, add_requests-Tiles, receive_all-Tiles, run_jobs-Placed,
}
use gjallarhorn.Mixnet.Chain.{add_streams}

-- A two-way round that no stream has begun.
pub record IsIdle (st : RoundState) : Type 0 where
  pub both_ways : st.bidirectional ≡ true
  pub none_yet : st.num_incoming ≡ 0
  pub no_jobs : st.jobs ≡ []
  pub still_on : st.closed ≡ false

abbrev pub begun : RoundState → ℕ → RoundState
begun st n = record st {
  accepting_onions = true;
  num_incoming = n;
  incoming = replicate n none;
  shared_keys = replicate n (zeros 32);
}

begin_onions-begun :
    (st : RoundState) (n : ℕ) → IsIdle st → begin_onions st n ≡ responds (begun st n)
unfolding begin_onions
begin_onions-begun st n i = started st.num_incoming st.bidirectional i.none_yet i.both_ways
  where
    started :
        (k : ℕ) (b : Bool)
        → k ≡ 0
        → b ≡ true
        → (if k == 0
            then responds (record st {
              accepting_onions = true;
              num_incoming = n;
              incoming = replicate n none;
              shared_keys = if b then replicate n (zeros 32) else st.shared_keys;
            })
            else if k == n
            then responds st
            else Outcome.fails RpcError.other_num_incoming)
          ≡ responds (begun st n)
    started k b e f = rw (e, f)

begin_onions-again :
    (st : RoundState) (n : ℕ) → n ≢ 0 → st.num_incoming ≡ n → begin_onions st n ≡ responds st
unfolding begin_onions
begin_onions-again st n some_onions e =
    let a : (st.num_incoming == 0) ≡ false = ground arith in
    let b : (st.num_incoming == n) ≡ true = ground arith in rw (begin_onions, a, b)

module _ (spans : ℕ → ℕ → List Span) (law : (n size : ℕ) → 0 < size → Covers 0 (spans n size) n)
    (onions : List Bytes) (small : length onions < 4294967296)
    (some_onions : length onions ≢ 0) where
  abbrev piece : Span → List Bytes
  piece s = take s.count (drop s.start onions)

  add_streams-step :
      (st st1 st2 : RoundState) (s : Span) (rest : List Span)
      → begin_onions st (length onions) ≡ responds st1
      → receive_all (length onions) st1 (stream_add_onions spans s.start (piece s))
        ≡ (st2, responds tt)
      → add_streams spans onions st (s ∷ rest) ≡ add_streams spans onions st2 rest
  unfolding add_streams
  add_streams-step st st1 st2 s rest b r =
      let fits : ltb (length onions) 4294967296 ≡ true = ground arith in
      rw (add_streams, fits, b) (ap (λ p. and_then p.1 (λ u. add_streams spans onions p.0 rest)) r)

  -- The spans after the first.
  add_streams-jobs :
      (a : ℕ) (ss : List Span) (st : RoundState)
      → st.num_incoming ≡ length onions
      → st.accepting_onions ≡ true
      → Covers a ss (length onions)
      → add_streams spans onions st ss
        ≡ responds (record st { jobs = st.jobs ++ add_from spans onions ss })
  unfolding add_streams add_from
  add_streams-jobs a [] st num accepting c =
      ap (λ js. responds (record st { jobs = js })) (sym (append-nil st.jobs))
  add_streams-jobs a (s ∷ ss) st num accepting (e, c) =
      let reqs = stream_add_onions spans s.start (piece s) in
      let le = Covers-le onions (a + s.count) (length onions) ss c in
      add_streams-step st st (record st { jobs = st.jobs ++ reqs }) s ss
        (begin_onions-again st (length onions) some_onions num)
        (receive_all-Tiles onions small (length onions) s.start (s.start + s.count) st reqs refl
          accepting (span-Tiles onions small spans law s (omega arith)))
      ∙ add_streams-jobs (a + s.count) ss (record st { jobs = st.jobs ++ reqs }) num accepting c
      ∙ ap (λ js. responds (record st { jobs = js }))
          (append_assoc st.jobs reqs (add_from spans onions ss))

  add_streams-begun :
      (ss : List Span) (st : RoundState)
      → IsIdle st
      → Covers 0 ss (length onions)
      → add_streams spans onions st ss
        ≡ responds (record (begun st (length onions)) { jobs = add_from spans onions ss })
  unfolding add_streams add_from
  add_streams-begun [] st i c = absurd (some_onions (sym c))
  add_streams-begun (s ∷ ss) st i (e, c) =
      let n = length onions in
      let reqs = stream_add_onions spans s.start (piece s) in
      let le = Covers-le onions (0 + s.count) n ss c in
      add_streams-step st (begun st n) (record (begun st n) { jobs = st.jobs ++ reqs }) s ss
        (begin_onions-begun st n i)
        (receive_all-Tiles onions small n s.start (s.start + s.count) (begun st n) reqs refl refl
          (span-Tiles onions small spans law s (omega arith)))
      ∙ add_streams-jobs (0 + s.count) ss (record (begun st n) { jobs = st.jobs ++ reqs }) refl refl
          c
      ∙ ap
          (λ js. responds (record (begun st n) { jobs = (js ++ reqs) ++ add_from spans onions ss }))
          i.no_jobs

-- An onion of the wrong size is dropped, as is one that does not open.
abbrev pub open_sized : Box → ℕ → RoundState → Bytes → Option Bytes
open_sized x round st onion =
    if length onion == st.incoming_onion_size then opened x round st onion else none

abbrev pub decrypted : Box → ℕ → RoundState → List Bytes → List (Option Bytes)
decrypted x round st onions = map (open_sized x round st) onions

-- The round when the workers have run.
abbrev pub worked : Box → ℕ → RoundState → List Bytes → List Bytes → RoundState
worked x round st onions keys = record st {
  num_incoming = length onions;
  accepting_onions = false;
  incoming = decrypted x round st onions;
  shared_keys = keys;
  jobs = [];
}

module _ (spans : ℕ → ℕ → List Span) (law : (n size : ℕ) → 0 < size → Covers 0 (spans n size) n)
    (x : Box) (round : ℕ) (st : RoundState) (onions : List Bytes)
    (small : length onions < 4294967296) where
  -- The shared keys of the onions that have the right size.
  pub record Keyed (keys : List Bytes) : Type 0 where
    pub count : length keys ≡ length onions
    pub keyed :
        (k : ℕ) (onion : Bytes)
        → get_elem? onions k ≡ some onion
        → length onion ≡ st.incoming_onion_size
        → get_elem? keys k ≡ some (shared_key x round st onion)

  abbrev ready : RoundState
  ready = record (begun st (length onions)) {
    accepting_onions = false;
    jobs = add_requests spans onions;
  }

  Placed-decrypted :
      (st' : RoundState)
      → Placed onions small x round (length onions) ready st'
      → st'.incoming ≡ decrypted x round st onions
  Placed-decrypted st' p =
      get_elem?-ext st'.incoming (decrypted x round st onions)
        (p.room ∙ sym (length-map (open_sized x round st) onions))
        (λ j lt.
          let here : j < length onions = omega (arith, length-map (open_sized x round st) onions) in
          let (onion, e) = get_elem?-some onions j here in
          let there = get_elem?-map (open_sized x round st) onions j e in
          elim (Bool-cases (length onion == st.incoming_onion_size)) [
            | inl fits ↦
                (p.placed j onion here e (ground arith)).0
                ∙ ap (λ b. some (if b then opened x round st onion else none)) (sym fits)
                ∙ sym there
            | inr other ↦
                p.skipped j onion here e (λ h. ground arith)
                ∙ get_elem?-replicate (length onions) j none here
                ∙ ap (λ b. some (if b then opened x round st onion else none)) (sym other)
                ∙ sym there
          ])

  run_jobs-worked :
      st.bidirectional ≡ true
      → (keys : List Bytes) × (run_jobs x round ready (add_requests spans onions)
          ≡ some (worked x round st onions keys))
        × Keyed keys
  run_jobs-worked both =
      let (st', ran, p) =
        run_jobs-Placed onions small x round ready 0 (length onions) ready
          (add_requests spans onions) (add_requests-Tiles onions small spans law)
          (record {
            room = length-replicate (length onions) none;
            has_room = record {
              both_ways = both;
              same_length =
                  length-replicate (length onions) (zeros 32)
                  ∙ sym (length-replicate (length onions) none);
            };
            key_kept = refl;
            size_kept = refl;
            placed = λ k onion lt. absurd (omega arith);
            skipped = λ k onion lt. absurd (omega arith);
            later = λ k le. refl;
            frame = refl;
          }) in
      let done : RoundState → RoundState = λ s. record s { jobs = [] } in
      let filled : List (Option Bytes) → RoundState =
        λ is. record ready { incoming = is; shared_keys = st'.shared_keys; jobs = [] } in
      (
        st'.shared_keys,
        ran
            ∙ ap (λ s. some (done s)) p.frame
            ∙ ap (λ is. some (filled is)) (Placed-decrypted st' p),
        record {
          count = p.has_room.same_length ∙ p.room;
          keyed = λ k onion e size. (p.placed k onion (get_elem?-lt_length onions k e) e size).1;
        },
      )

close_open-opens :
    (w : World) (service : Service) (name : Bytes) (round : ℕ) (c c' : RoundState)
    → c.closed ≡ false
    → run_jobs w.box round (record c { accepting_onions = false }) c.jobs ≡ some c'
    → close_open w service name round c ≡ mix_round w service name round c'
unfolding close_open
close_open-opens w service name round c c' open_still ran = on c.closed open_still
  where
    on :
        (b : Bool)
        → b ≡ false
        → (if b
            then (c, elim c.err [ none ↦ responds c.close_result | some e ↦ Outcome.fails e ])
            else elim (run_jobs w.box round (record c { accepting_onions = false }) c.jobs) [
              | none ↦ (record c { accepting_onions = false }, Outcome.panics)
              | some st'' ↦ mix_round w service name round st''
            ])
          ≡ mix_round w service name round c'
    on b e = rw (e, ran)

-- A run of the streams of a batch and the end of the round, up to where the messages are mixed.
pub close_open-worked :
    (spans : ℕ → ℕ → List Span) (law : (n size : ℕ) → 0 < size → Covers 0 (spans n size) n)
    (w : World) (service : Service) (name : Bytes) (round : ℕ) (st : RoundState)
    (onions : List Bytes) (small : length onions < 4294967296)
    → length onions ≢ 0
    → IsIdle st
    → (keys : List Bytes) × Keyed spans law w.box round st onions small keys
      × ((st' : RoundState) × (add_streams spans onions st
              (spans (length onions) (span_size (length onions)))
            ≡ responds st')
          × (close_open w service name round st'
              ≡ mix_round w service name round (worked w.box round st onions keys)))
unfolding add_requests
close_open-worked spans law w service name round st onions small some_onions i =
    let n = length onions in
    let (keys, ran, keyed) = run_jobs-worked spans law w.box round st onions small i.both_ways in
    let st' : RoundState = record (begun st n) { jobs = add_requests spans onions } in
    (
      keys,
      keyed,
      (
        st',
        add_streams-begun spans law onions small some_onions (spans n (span_size n)) st i
            (law n (span_size n) (span_size-positive n)),
        close_open-opens w service name round st' (worked w.box round st onions keys) i.still_on
            ran,
      ),
    )
