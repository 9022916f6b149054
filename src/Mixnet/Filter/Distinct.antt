-- ===== src/Mixnet/Filter/Distinct.antt =====
-- Replayed onions are dropped, and nothing else is.
use mathlib.Core.Option.{none-ne-some}
use gjallarhorn.Prelude.{
  ℕ, zero, suc, ◌≡◌, refl, sym, ap, ◌∙◌, ◌⊎◌, Bool, true, false, List, [], ◌∷◌, ◌++◌, Option, none,
  some, some_inj, if◌then◌else◌, length, nat_eq, ◌==◌, arith, get_elem?, get_elem?-append_some,
  get_elem?-append_end, Bool-cases, inl, inr,
}
use gjallarhorn.Prelude.Bytes.{Bytes}
use gjallarhorn.Prelude.Maps.{Map, lookup, insert, lookup-insert}
use gjallarhorn.Mixnet.Filter.{filter_from, filter_incoming, msg_key, is_seen}
use gjallarhorn.Mixnet.Filter.Index.{filter_from-keeps}

snoc_cases :
    (xs : List Bytes) (y : Bytes) (i : ℕ) {a : Bytes}
    → get_elem? (xs ++ (y ∷ [])) i ≡ some a
    → (get_elem? xs i ≡ some a) ⊎ ((i ≡ length xs) × (y ≡ a))
snoc_cases [] y zero h = inr (refl, some_inj h)
snoc_cases [] y (suc i) {a} h = absurd (none-ne-some a h)
snoc_cases (x ∷ xs) y zero h = inl h
snoc_cases (x ∷ xs) y (suc i) h = elim (snoc_cases xs y i h) [
  | inl e ↦ inl e
  | inr (e, f) ↦ inr (ap suc e, f)
]

is_seen-insert :
    (k j : ℕ) (seen : Map ℕ Bool)
    → is_seen j (insert k true seen) ≡ (if k == j then true else is_seen j seen)
is_seen-insert k j seen = ground (arith, lookup-insert k j true seen)

-- The map holds the keys of the valid messages, which are distinct.
record Keyed (seen : Map ℕ Bool) (valid : List Bytes) : Type 0 where
  marked : (i : ℕ) (m : Bytes) → get_elem? valid i ≡ some m → is_seen (msg_key m) seen ≡ true
  found :
      (k : ℕ)
      → is_seen k seen ≡ true
      → (i : ℕ) × (m : Bytes) × (get_elem? valid i ≡ some m) × (msg_key m ≡ k)
  distinct :
      (i j : ℕ) (a b : Bytes)
      → get_elem? valid i ≡ some a
      → get_elem? valid j ≡ some b
      → msg_key a ≡ msg_key b
      → i ≡ j

Keyed-snoc :
    (seen : Map ℕ Bool) (valid : List Bytes) (m : Bytes)
    → is_seen (msg_key m) seen ≡ false
    → Keyed seen valid
    → Keyed (insert (msg_key m) true seen) (valid ++ (m ∷ []))
Keyed-snoc seen valid m new k = record {
  marked = λ i a h. elim (snoc_cases valid m i h) [
    | inl old ↦ ground (arith, is_seen-insert (msg_key m) (msg_key a) seen, k.marked i a old)
    | inr (_, e) ↦ ground (arith, is_seen-insert (msg_key m) (msg_key a) seen, ap msg_key e)
  ];
  found = λ key h. elim (Bool-cases (msg_key m == key)) [
    | inl same ↦ (length valid, m, get_elem?-append_end valid m, ground arith)
    | inr other ↦
        let old : is_seen key seen ≡ true = ground (arith, is_seen-insert (msg_key m) key seen) in
        let (i, a, at, e) = k.found key old in (i, a, get_elem?-append_some valid (m ∷ []) i at, e)
  ];
  distinct = λ i j a b ha hb e. elim (snoc_cases valid m i ha) [
    | inl oa ↦ elim (snoc_cases valid m j hb) [
      | inl ob ↦ k.distinct i j a b oa ob e
      | inr (_, eb) ↦ absurd (clash a i oa (e ∙ ap msg_key (sym eb)))
    ]
    | inr (ia, ea) ↦ elim (snoc_cases valid m j hb) [
      | inl ob ↦ absurd (clash b j ob (sym e ∙ ap msg_key (sym ea)))
      | inr (jb, _) ↦ ia ∙ sym jb
    ]
  ];
}
  where
    clash : (a : Bytes) (i : ℕ) → get_elem? valid i ≡ some a → msg_key a ≡ msg_key m → ⊥
    clash a i h e = ground (arith, k.marked i a h)

filter_from-Keyed :
    (msgs : List (Option Bytes)) (seen : Map ℕ Bool) (valid : List Bytes)
    → Keyed seen valid
    → (seen' : Map ℕ Bool) × Keyed seen' (filter_from msgs seen valid).0
unfolding filter_from
filter_from-Keyed [] seen valid k = (seen, k)
filter_from-Keyed (none ∷ msgs) seen valid k = filter_from-Keyed msgs seen valid k
filter_from-Keyed (some m ∷ msgs) seen valid k = elim (Bool-cases (is_seen (msg_key m) seen)) [
  | inl again ↦ rw again (filter_from-Keyed msgs seen valid k)
  | inr new ↦ rw new (
      filter_from-Keyed msgs (insert (msg_key m) true seen) (valid ++ (m ∷ []))
        (Keyed-snoc seen valid m new k))
]

start-Keyed : Keyed [] []
unfolding lookup
start-Keyed = record {
  marked = λ i m h. absurd (none-ne-some m h);
  found = λ k h. let bad : ⊥ = cc in absurd bad;
  distinct = λ i j a b ha hb e. absurd (none-ne-some a ha);
}

-- No two of the messages that go on have one key.
pub filter_incoming-distinct :
    (incoming : List (Option Bytes)) (i j : ℕ) (a b : Bytes)
    → get_elem? (filter_incoming incoming).0 i ≡ some a
    → get_elem? (filter_incoming incoming).0 j ≡ some b
    → msg_key a ≡ msg_key b
    → i ≡ j
unfolding filter_incoming
filter_incoming-distinct incoming = (filter_from-Keyed incoming [] [] start-Keyed).1.distinct

filter_from_complete :
    (msgs : List (Option Bytes)) (seen : Map ℕ Bool) (valid : List Bytes) (i : ℕ) (m : Bytes)
    → Keyed seen valid
    → get_elem? msgs i ≡ some (some m)
    → (v : ℕ) × (a : Bytes) × (get_elem? (filter_from msgs seen valid).0 v ≡ some a)
      × (msg_key a ≡ msg_key m)
unfolding filter_from
filter_from_complete [] seen valid i m k h = absurd (none-ne-some (some m) h)
filter_from_complete (none ∷ msgs) seen valid zero m k h = absurd (none-ne-some m (some_inj h))
filter_from_complete (none ∷ msgs) seen valid (suc i) m k h =
    filter_from_complete msgs seen valid i m k h
filter_from_complete (some n ∷ msgs) seen valid zero m k h =
    elim (Bool-cases (is_seen (msg_key n) seen)) [
      | inl again ↦
          let (v, a, at, e) = k.found (msg_key n) again in
          (
            v,
            a,
            rw again (filter_from-keeps msgs seen valid v at),
            e ∙ ap msg_key (some_inj (some_inj h)),
          )
      | inr new ↦ (
        length valid,
        n,
        rw new (
            filter_from-keeps msgs (insert (msg_key n) true seen) (valid ++ (n ∷ [])) (length valid)
              (get_elem?-append_end valid n)),
        ap msg_key (some_inj (some_inj h)),
      )
    ]
filter_from_complete (some n ∷ msgs) seen valid (suc i) m k h =
    elim (Bool-cases (is_seen (msg_key n) seen)) [
      | inl again ↦ rw again (filter_from_complete msgs seen valid i m k h)
      | inr new ↦ rw new (
          filter_from_complete msgs (insert (msg_key n) true seen) (valid ++ (n ∷ [])) i m
            (Keyed-snoc seen valid n new k) h)
    ]

-- Of every message that was decrypted, one with its key goes on.
pub filter_incoming_complete :
    (incoming : List (Option Bytes)) (i : ℕ) (m : Bytes)
    → get_elem? incoming i ≡ some (some m)
    → (v : ℕ) × (a : Bytes) × (get_elem? (filter_incoming incoming).0 v ≡ some a)
      × (msg_key a ≡ msg_key m)
unfolding filter_incoming
filter_incoming_complete incoming i m h = filter_from_complete incoming [] [] i m start-Keyed h
