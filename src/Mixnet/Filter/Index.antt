-- ===== src/Mixnet/Filter/Index.antt =====
-- The indices that `filterIncoming` leaves.
use mathlib.Core.Option.{none-ne-some}
use gjallarhorn.Prelude.{
  ℕ, zero, suc, ◌≡◌, refl, ap, Bool, true, List, [], ◌∷◌, ◌++◌, Option, none, some, some_inj,
  if◌then◌else◌, length, nat_eq, get_elem?, get_elem?-append_some, get_elem?-append_end, Bool-cases,
  inl, inr,
}
use gjallarhorn.Prelude.Bytes.{Bytes}
use gjallarhorn.Prelude.Maps.{Map, insert}
use gjallarhorn.Mixnet.Filter.{filter_from, filter_incoming, msg_key, is_seen}

-- What is among the valid messages stays where it is.
pub filter_from-keeps :
    (msgs : List (Option Bytes)) (seen : Map ℕ Bool) (valid : List Bytes) (v : ℕ) {msg : Bytes}
    → get_elem? valid v ≡ some msg
    → get_elem? (filter_from msgs seen valid).0 v ≡ some msg
unfolding filter_from
filter_from-keeps [] seen valid v h = h
filter_from-keeps (none ∷ msgs) seen valid v h = filter_from-keeps msgs seen valid v h
filter_from-keeps (some m ∷ msgs) seen valid v h = elim (Bool-cases (is_seen (msg_key m) seen)) [
  | inl again ↦ rw again (filter_from-keeps msgs seen valid v h)
  | inr new ↦ rw new (
      filter_from-keeps msgs (insert (msg_key m) true seen) (valid ++ (m ∷ [])) v
        (get_elem?-append_some valid (m ∷ []) v h))
]

filter_from-index :
    (msgs : List (Option Bytes)) (seen : Map ℕ Bool) (valid : List Bytes) (i v : ℕ)
    → get_elem? (filter_from msgs seen valid).1 i ≡ some (some v)
    → (msg : Bytes) × (get_elem? msgs i ≡ some (some msg))
      × (get_elem? (filter_from msgs seen valid).0 v ≡ some msg)
unfolding filter_from
filter_from-index [] seen valid i v h = absurd (none-ne-some (some v) h)
filter_from-index (none ∷ msgs) seen valid zero v h = absurd (none-ne-some v (some_inj h))
filter_from-index (none ∷ msgs) seen valid (suc i) v h = filter_from-index msgs seen valid i v h
filter_from-index (some m ∷ msgs) seen valid zero v h =
    elim (Bool-cases (is_seen (msg_key m) seen)) [
      | inl again ↦ absurd (none-ne-some v (some_inj (rw again at h)))
      | inr new ↦
          let at : length valid ≡ v = some_inj (some_inj (rw new at h)) in
          (
            m,
            refl,
            rw new (
                filter_from-keeps msgs (insert (msg_key m) true seen) (valid ++ (m ∷ [])) v
                  (rw (← at) (get_elem?-append_end valid m))),
          )
    ]
filter_from-index (some m ∷ msgs) seen valid (suc i) v h =
    filter_from-index msgs (if is_seen (msg_key m) seen then seen else insert (msg_key m) true seen)
      (if is_seen (msg_key m) seen then valid else valid ++ (m ∷ [])) i v h

-- Where an onion has an index, its message was decrypted and stands there among those that go on.
pub filter_incoming-index :
    (incoming : List (Option Bytes)) (i v : ℕ)
    → get_elem? (filter_incoming incoming).1 i ≡ some (some v)
    → (msg : Bytes) × (get_elem? incoming i ≡ some (some msg))
      × (get_elem? (filter_incoming incoming).0 v ≡ some msg)
unfolding filter_incoming
filter_incoming-index incoming i v h = filter_from-index incoming [] [] i v h

-- There is one index for each onion.
pub length-filter_from :
    (msgs : List (Option Bytes)) (seen : Map ℕ Bool) (valid : List Bytes)
    → length (filter_from msgs seen valid).1 ≡ length msgs
unfolding filter_from
length-filter_from [] seen valid = refl
length-filter_from (none ∷ msgs) seen valid = ap suc (length-filter_from msgs seen valid)
length-filter_from (some m ∷ msgs) seen valid = ap suc (
    length-filter_from msgs
      (if is_seen (msg_key m) seen then seen else insert (msg_key m) true seen)
      (if is_seen (msg_key m) seen then valid else valid ++ (m ∷ [])))
