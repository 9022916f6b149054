-- ===== src/Convo/Counts.antt =====
-- The access counts that the last server publishes.
use gjallarhorn.Prelude.{
  ℕ, ◌+◌, ◌≡◌, ◌≤◌, ◌<◌, refl, sym, ap, Bool, List, [], ◌∷◌, ◌++◌, some, ◌==◌, if◌then◌else◌, arith,
  length, length-take, length-append, Bool-cases, inl, inr, not,
}
use gjallarhorn.Prelude.Bytes.{Bytes, bytes_eq, bytes_equal, bytes_equal_iff}
use Prim.Native.Nat.{min}
use gjallarhorn.Prelude.Maps.{Map, lookup, retain, delete, insert}
use gjallarhorn.Convo.Exchange.{record_access-at}
use gjallarhorn.Convo.{
  Accesses, accessed, drop_of, record_access, count_accesses, no_accesses, handle_messages,
}

-- How often a dead drop occurs among the messages.
unfoldable pub accesses_of : Bytes → List Bytes → ℕ
accesses_of dest [] = 0
accesses_of dest (msg ∷ msgs) =
    if bytes_equal (drop_of msg) dest then accesses_of dest msgs + 1 else accesses_of dest msgs

-- How many of the messages are access number `n` of their dead drop, from 0 on, where `earlier`
-- came before them.
unfoldable pub nth_accesses : ℕ → List Bytes → List Bytes → ℕ
unfolding accesses_of
nth_accesses n earlier [] = 0
nth_accesses n earlier (msg ∷ msgs) =
    (if accesses_of (drop_of msg) earlier == n then 1 else 0) + nth_accesses n (msg ∷ earlier) msgs

abbrev is_one : List ℕ → ℕ
is_one (j ∷ []) = 1
is_one other = 0

-- The dead drops with one access.
ones : Map Bytes (List ℕ) → ℕ
ones [] = 0
ones ((k, is) ∷ m) = is_one is + ones m

ones-retain : (keep : Bytes → Bool) (m : Map Bytes (List ℕ)) → ones (retain keep m) ≤ ones m
unfolding ones retain
ones-retain keep [] = omega arith
ones-retain keep ((k, is) ∷ m) = ground (arith, ones-retain keep m)

ones-delete :
    (dest : Bytes) (j : ℕ) (m : Map Bytes (List ℕ))
    → lookup dest m ≡ some (j ∷ [])
    → ones (delete dest m) < ones m
unfolding ones lookup delete
ones-delete dest j [] h = ground arith
ones-delete dest j ((k, is) ∷ m) h = elim (Bool-cases (bytes_equal k dest)) [
  | inl same ↦
      let one : is ≡ j ∷ [] = ground arith in
      rw (same, one) (omega (arith, ones-retain (λ i. not (bytes_equal i dest)) m))
  | inr differ ↦
      let found : lookup dest m ≡ some (j ∷ []) = ground arith in
      rw differ (omega (arith, ones-delete dest j m found))
]

record Tracks (earlier : List Bytes) (a : Accesses) : Type 0 where
  seen : (d : Bytes) → length (accessed d a) ≡ min 2 (accesses_of d earlier)
  enough : ones a.dead_drops ≤ a.singles

ones-insert :
    (k : Bytes) (is : List ℕ) (m : Map Bytes (List ℕ))
    → ones (insert k is m) ≡ is_one is + ones (delete k m)
unfolding ones insert
ones-insert k is m = refl

ones-delete-le : (k : Bytes) (m : Map Bytes (List ℕ)) → ones (delete k m) ≤ ones m
unfolding delete
ones-delete-le k m = ones-retain (λ i. not (bytes_equal i k)) m

seen_step :
    (i : ℕ) (msg : Bytes) (earlier : List Bytes) (was : List ℕ) (a : Accesses)
    → accessed (drop_of msg) a ≡ was
    → Tracks earlier a
    → (d : Bytes)
    → length (accessed d (record_access i (drop_of msg) was a))
      ≡ min 2 (accesses_of d (msg ∷ earlier))
unfolding accesses_of
seen_step i msg earlier was a e t d =
    let n = t.seen (drop_of msg) in
    let step = record_access-at i d (drop_of msg) was a e (omega (arith, n, ap length e)) in
    elim (Bool-cases (bytes_equal (drop_of msg) d)) [
      | inl same ↦
          rw (step, same)
            (rw (ap (λ z. accesses_of z earlier) (sym ((bytes_equal_iff (drop_of msg) d).0 same))) (
              omega (
                arith,
                n,
                ap length e,
                length-take 2 (was ++ (i ∷ [])),
                length-append was (i ∷ []),
              )))
      | inr differ ↦ rw (step, differ) (t.seen d)
    ]

record_access-Tracks :
    (i : ℕ) (msg : Bytes) (earlier : List Bytes) (was : List ℕ) (a : Accesses)
    → accessed (drop_of msg) a ≡ was
    → Tracks earlier a
    → let a' = record_access i (drop_of msg) was a in
      Tracks (msg ∷ earlier) a'
      × (a'.doubles ≡ a.doubles + (if accesses_of (drop_of msg) earlier == 1 then 1 else 0))
      × (a'.singles + a'.doubles
          ≡ a.singles + a.doubles + (if accesses_of (drop_of msg) earlier == 0 then 1 else 0))
unfolding record_access
record_access-Tracks i msg earlier [] a e t =
    let n = t.seen (drop_of msg) in
    let zeroth : accesses_of (drop_of msg) earlier ≡ 0 = omega (arith, n, ap length e) in
    (
      record {
        seen = seen_step i msg earlier [] a e t;
        enough = omega (
          arith,
          ones-insert (drop_of msg) (i ∷ []) a.dead_drops,
          ones-delete-le (drop_of msg) a.dead_drops,
          t.enough,
        );
      },
      ground arith,
      ground arith,
    )
record_access-Tracks i msg earlier (j ∷ []) a e t =
    let n = t.seen (drop_of msg) in
    let first : accesses_of (drop_of msg) earlier ≡ 1 = omega (arith, n, ap length e) in
    let less = ones-delete (drop_of msg) j a.dead_drops (found e) in
    (
      record {
        seen = seen_step i msg earlier (j ∷ []) a e t;
        enough = omega (arith, ones-insert (drop_of msg) (j ∷ i ∷ []) a.dead_drops, less, t.enough);
      },
      ground arith,
      ground (arith, less, t.enough),
    )
  where
    found : accessed (drop_of msg) a ≡ j ∷ [] → lookup (drop_of msg) a.dead_drops ≡ some (j ∷ [])
    found h = ground arith
record_access-Tracks i msg earlier (j ∷ k ∷ more) a e t =
    let n = t.seen (drop_of msg) in
    let many : 2 ≤ accesses_of (drop_of msg) earlier = omega (arith, n, ap length e) in
    (
      record { seen = seen_step i msg earlier (j ∷ k ∷ more) a e t; enough = t.enough },
      ground arith,
      ground arith,
    )

count_accesses-counts :
    (i : ℕ) (earlier msgs : List Bytes) (a : Accesses)
    → Tracks earlier a
    → let b = count_accesses i msgs a in
      (b.doubles ≡ a.doubles + nth_accesses 1 earlier msgs)
      × (b.singles + b.doubles ≡ a.singles + a.doubles + nth_accesses 0 earlier msgs)
unfolding count_accesses nth_accesses
count_accesses-counts i earlier [] a t = (omega arith, omega arith)
count_accesses-counts i earlier (msg ∷ msgs) a t =
    let (t', d, s) = record_access-Tracks i msg earlier (accessed (drop_of msg) a) a refl t in
    let (d', s') =
      count_accesses-counts (i + 1) (msg ∷ earlier) msgs
        (record_access i (drop_of msg) (accessed (drop_of msg) a) a) t' in
    (omega (arith, d, d'), omega (arith, s, s'))

start-Tracks : Tracks [] no_accesses
unfolding lookup accesses_of ones
start-Tracks = record { seen = λ d. omega arith; enough = omega arith }

-- The doubles that the last server publishes are the dead drops with a second access, and the
-- singles and doubles together are the dead drops that were accessed at all.
pub handle_messages-counts :
    (incoming : List Bytes)
    → let (replies, singles, doubles) = handle_messages incoming in
      (doubles ≡ nth_accesses 1 [] incoming) × (singles + doubles ≡ nth_accesses 0 [] incoming)
unfolding handle_messages
handle_messages-counts incoming =
    let (d, s) = count_accesses-counts 0 [] incoming no_accesses start-Tracks in
    (omega (arith, d), omega (arith, s))
