-- ===== src/Coordinator/Numbers.antt =====
-- The numbers of the rounds, across restarts.
use gjallarhorn.Prelude.{
  ℕ, zero, suc, ◌+◌, ◌%◌, ◌≤◌, ◌<◌, ◌≡◌, ◌⊎◌, refl, inl, inr, ◌==◌, arith, Bool-cases,
}
use gjallarhorn.Coordinator.{Coordinator, start_loop, next_round, load_persisted_state}

-- `n` turns of the loop.
abbrev pub turns : ℕ → Coordinator → Coordinator
turns zero srv = srv
turns (suc n) srv = next_round (turns n srv)

abbrev pub started : ℕ → Coordinator → Coordinator
started n srv = turns n (start_loop (load_persisted_state srv))

-- After `n` rounds of a process whose file said `p`.
record Counted (p n : ℕ) (srv : Coordinator) : Type 0 where
  pub count : srv.round ≡ p + 100 + n
  pub behind : srv.persisted ≤ srv.round
  pub saved :
      ((srv.round ≤ srv.persisted + 19) × (srv.persisted % 20 ≡ 0) × (p + 100 < srv.persisted))
      ⊎ ((srv.persisted ≡ p) × (n ≤ srv.round % 20) × (srv.round % 20 ≡ (p + 100) % 20 + n))

Counted-next :
    (p n : ℕ) (s : Coordinator)
    → p + n + 101 < 4294967296
    → Counted p n s
    → Counted p (suc n) (next_round s)
unfolding next_round
Counted-next p n s small c =
    let e : (s.round + 1) % 4294967296 ≡ s.round + 1 = omega (arith, c.count) in
    elim (Bool-cases ((s.round + 1) % 20 == 0)) [
      | inl multiple ↦
          rw (next_round, e, multiple)
            (record {
              count = omega (arith, c.count);
              behind = omega arith;
              saved = inl (omega arith, ground arith, omega (arith, c.count));
            })
      | inr other ↦
          rw (next_round, e, other)
            (record {
              count = omega (arith, c.count);
              behind = omega (arith, c.behind);
              saved = elim c.saved [
                | inl (near, whole, late) ↦ inl (ground (arith, c.behind, c.count), whole, late)
                | inr (same, few, since) ↦ inr (same, ground arith, ground arith)
              ];
            })
    ]

counted :
    (p n : ℕ) (srv : Coordinator)
    → p + n + 100 < 4294967296
    → srv.persisted ≡ p
    → Counted p n (started n srv)
unfolding start_loop load_persisted_state
counted p zero srv small at =
    let e : (srv.persisted + 100) % 4294967296 ≡ p + 100 = omega arith in
    record { count = omega arith; behind = omega arith; saved = inr (at, omega arith, omega arith) }
counted p (suc n) srv small at =
    Counted-next p n (started n srv) (omega arith) (counted p n srv (omega arith) at)

-- A process that has run at least 20 rounds has persisted late enough: the first round of the next
-- process is after every round of this one, if no number wraps and each file is written in time.
pub load_persisted_state-after :
    (n : ℕ) (srv : Coordinator)
    → 20 ≤ n
    → srv.persisted + n + 201 < 4294967296
    → (started n srv).round < (started 1 (started n srv)).round
unfolding next_round start_loop load_persisted_state
load_persisted_state-after n srv long small =
    let c = counted srv.persisted n srv (omega arith) refl in
    let e : ((started n srv).persisted + 100) % 4294967296 ≡ (started n srv).persisted + 100 =
      omega (arith, c.count, c.behind) in
    let next : ((started n srv).persisted + 100 + 1) % 4294967296
        ≡ (started n srv).persisted + 101 =
      omega (arith, c.count, c.behind) in
    let near : (started n srv).round ≤ (started n srv).persisted + 19 = elim c.saved [
      | inl (near, whole, late) ↦ near
      | inr (same, few, since) ↦ absurd (omega arith)
    ] in
    rw (e, next) (omega arith)

-- A process that stops before its first multiple of 20 has persisted nothing: the next process
-- starts with a round that this one has already run.
pub load_persisted_state-again :
    (n : ℕ) (srv : Coordinator)
    → (srv.persisted + 100) % 20 + n < 20
    → srv.persisted % 20 ≡ 0
    → srv.persisted + n + 201 < 4294967296
    → (started 1 (started n srv)).round ≡ (started 1 srv).round
unfolding next_round start_loop load_persisted_state
load_persisted_state-again n srv short whole small =
    let c = counted srv.persisted n srv (omega arith) refl in
    let same : (started n srv).persisted ≡ srv.persisted = elim c.saved [
      | inl (near, even, late) ↦ absurd (omega (arith, c.count, c.behind))
      | inr (same, few, since) ↦ same
    ] in
    rw same
