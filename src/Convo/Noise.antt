-- ===== src/Convo/Noise.antt =====
-- The noise of a mix server: `GenerateNoise` of convo/mixer.go, with `FillWithFakeSingles` and
-- `FillWithFakeDoubles` of convo/noise.go. The Laplace samples, the random bytes and the onion
-- encryption come from other packages and are arguments; the parallel loops write each its own
-- entries.
use gjallarhorn.Prelude.{
  ℕ, zero, suc, ◌+◌, ◌-◌, ◌*◌, ◌/◌, ◌%◌, ◌≤◌, ◌<◌, ◌≡◌, refl, ap, true, List, [], ◌∷◌, ◌++◌, map,
  some, some_inj, sym, get_elem?, ltb, if◌then◌else◌, arith, length, take, ◌⊎◌, inl, inr,
  Bool-cases, length-append, length-map,
}
use gjallarhorn.Prelude.Bytes.{Bytes, u32}
use gjallarhorn.Convo.{drop_of}

-- The plaintexts of `n` single accesses: 272 random bytes each.
unfoldable pub fake_singles : ℕ → (ℕ → Bytes) → List Bytes
fake_singles zero random = []
fake_singles (suc n) random = random n ∷ fake_singles n random

-- The plaintexts of `n` double accesses: `copy(msg2[0:16], msg1[0:16])`, the rest random.
unfoldable pub fake_doubles : ℕ → (ℕ → Bytes) → (ℕ → Bytes) → List Bytes
fake_doubles zero random rest = []
fake_doubles (suc n) random rest =
    random n ∷ (take 16 (random n) ++ rest n) ∷ fake_doubles n random rest

-- `numFakeDoubles += numFakeDoubles % 2`, in `uint32`.
abbrev pub make_even : ℕ → ℕ
make_even n = u32 (n + n % 2)

-- What `GenerateNoise` gives: the nil of the last server, a panic, or the onions.
pub data Generated : Type 0 where
  nil : Generated
  panics : Generated
  made : List Bytes → Generated

-- The slice has as many places as the sum of the two numbers, in `uint32`; the singles are
-- `noise[:numFakeSingles]`, which panics if there are more of them than places. The onions are
-- sealed in place.
unfoldable pub generate_noise :
    (Bytes → Bytes) → ℕ → ℕ → (ℕ → Bytes) → (ℕ → Bytes) → (ℕ → Bytes) → ℕ → ℕ → Generated
unfolding fake_singles fake_doubles
generate_noise seal_onion num_singles num_doubles single double rest num_servers my_pos =
    let places = u32 (num_singles + make_even num_doubles) in
    if ltb my_pos (num_servers - 1)
    then if ltb places num_singles
      then panics
      else made (
          map seal_onion (fake_singles num_singles single)
          ++ map seal_onion (fake_doubles ((places - num_singles) / 2) double rest))
    else nil

take-take : (n : ℕ) (xs ys : Bytes) → n ≤ length xs → take n (take n xs ++ ys) ≡ take n xs
take-take zero xs ys h = refl
take-take (suc n) [] ys h = absurd (omega arith)
take-take (suc n) (x ∷ xs) ys h = ap (◌∷◌ x) (take-take n xs ys (omega arith))

length-fake_singles : (n : ℕ) (random : ℕ → Bytes) → length (fake_singles n random) ≡ n
unfolding fake_singles
length-fake_singles zero random = refl
length-fake_singles (suc n) random = ap suc (length-fake_singles n random)

length-fake_doubles :
    (n : ℕ) (random rest : ℕ → Bytes) → length (fake_doubles n random rest) ≡ 2 * n
unfolding fake_doubles
length-fake_doubles zero random rest = refl
length-fake_doubles (suc n) random rest = omega (arith, length-fake_doubles n random rest)

-- A server that is not the last, for samples of 32 bits, the second not the greatest one: if the
-- sampled singles and the sampled doubles, rounded up to an even number, are together less than
-- 2^32, it makes exactly so many onions; else their sum wraps, and it panics.
pub generate_noise-length :
    (seal_onion : Bytes → Bytes) (singles doubles : ℕ) (single double rest : ℕ → Bytes)
    (num_servers my_pos : ℕ)
    → singles < 4294967296
    → doubles < 4294967295
    → my_pos + 1 < num_servers
    → ((singles + (doubles + doubles % 2) < 4294967296)
        × (noise : List Bytes) × (generate_noise seal_onion singles doubles single double rest
              num_servers my_pos
            ≡ made noise)
        × (length noise ≡ singles + (doubles + doubles % 2)))
      ⊎ ((4294967296 ≤ singles + (doubles + doubles % 2))
          × (generate_noise seal_onion singles doubles single double rest num_servers my_pos
              ≡ panics))
unfolding generate_noise
generate_noise-length seal_onion singles doubles single double rest num_servers my_pos small_singles
      small inner =
    let more : ltb my_pos (num_servers - 1) ≡ true = ground arith in
    let places = u32 (singles + make_even doubles) in
    let ones = fake_singles singles single in
    let twos = fake_doubles ((places - singles) / 2) double rest in
    elim (Bool-cases (ltb places singles)) [
      | inl short ↦ inr (ground arith, rw (more, short))
      | inr room ↦ inl (
        ground arith,
        map seal_onion ones ++ map seal_onion twos,
        rw (more, room),
        let fits : singles + (doubles + doubles % 2) < 4294967296 = ground arith in
            omega (
              arith,
              length-append (map seal_onion ones) (map seal_onion twos),
              length-map seal_onion ones,
              length-map seal_onion twos,
              length-fake_singles singles single,
              length-fake_doubles ((places - singles) / 2) double rest,
            ),
      )
    ]

-- The two messages of a fake double have one dead drop, so the last server exchanges them like
-- those of a conversation; the random bytes fill a drop.
pub fake_doubles-drop_of :
    (n i : ℕ) (random rest : ℕ → Bytes) {a b : Bytes}
    → ((k : ℕ) → 16 ≤ length (random k))
    → get_elem? (fake_doubles n random rest) (2 * i) ≡ some a
    → get_elem? (fake_doubles n random rest) (2 * i + 1) ≡ some b
    → drop_of a ≡ drop_of b
unfolding fake_doubles
fake_doubles-drop_of zero i random rest filled ha hb = ground arith
fake_doubles-drop_of (suc n) zero random rest {a} {b} filled ha hb =
    rw (← some_inj ha, ← some_inj hb) (sym (take-take 16 (random n) (rest n) (filled n)))
fake_doubles-drop_of (suc n) (suc i) random rest {a} {b} filled ha hb =
    let two : 2 * suc i ≡ suc (suc (2 * i)) = omega arith in
    let three : 2 * suc i + 1 ≡ suc (suc (2 * i + 1)) = omega arith in
    fake_doubles-drop_of n i random rest filled (rw two at ha) (rw three at hb)
