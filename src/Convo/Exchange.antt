-- ===== src/Convo/Exchange.antt =====
-- Who gets whose message from a dead drop.
use mathlib.Core.List.{append-nil, append_assoc}
use gjallarhorn.Prelude.{
  ℕ, suc, zero, ◌+◌, ◌≡◌, ◌≢◌, ◌≤◌, ◌<◌, refl, sym, ap, ◌∙◌, Bool, true, false, List, [], ◌∷◌, ◌++◌,
  some, some_inj, ◌==◌, if◌then◌else◌, arith, length, get_elem?, take, Bool-cases, inl, inr,
}
use gjallarhorn.Prelude.Bytes.{Bytes, bytes_eq, bytes_equal, bytes_equal_iff}
use gjallarhorn.Prelude.Maps.{lookup, lookup-insert}
use gjallarhorn.Convo.{
  Accesses, accessed, drop_of, body_of, body_at, record_access, count_accesses, reply_for,
  replies_from, no_accesses, handle_messages,
}

-- Where the messages to a dead drop stand, counted from `i`.
unfoldable pub positions : ℕ → Bytes → List Bytes → List ℕ
positions i dest [] = []
positions i dest (msg ∷ msgs) =
    if bytes_equal (drop_of msg) dest
    then i ∷ positions (i + 1) dest msgs
    else positions (i + 1) dest msgs

pub record_access-at :
    (i : ℕ) (dest other : Bytes) (was : List ℕ) (a : Accesses)
    → accessed other a ≡ was
    → length was ≤ 2
    → accessed dest (record_access i other was a)
      ≡ (if bytes_equal other dest then take 2 (was ++ (i ∷ [])) else accessed dest a)
unfolding record_access
record_access-at i dest other [] a e few =
    ground (arith, lookup-insert other dest (i ∷ []) a.dead_drops)
record_access-at i dest other (j ∷ []) a e few =
    ground (arith, lookup-insert other dest (j ∷ i ∷ []) a.dead_drops)
record_access-at i dest other (j ∷ k ∷ []) a e few = elim (Bool-cases (bytes_equal other dest)) [
  | inl same ↦ rw same (rw (← (bytes_equal_iff other dest).0 same) e)
  | inr differ ↦ rw differ
]
record_access-at i dest other (j ∷ k ∷ l ∷ more) a e few = absurd (omega arith)

take-few : (xs : List ℕ) → length xs ≤ 2 → take 2 xs ≡ xs
take-few [] h = refl
take-few (x ∷ []) h = refl
take-few (x ∷ y ∷ []) h = refl
take-few (x ∷ y ∷ z ∷ xs) h = absurd (omega arith)

take-take-append : (xs ys : List ℕ) → take 2 (take 2 xs ++ ys) ≡ take 2 (xs ++ ys)
take-take-append [] ys = refl
take-take-append (x ∷ []) ys = refl
take-take-append (x ∷ y ∷ xs) ys = refl

length-take_two : (xs : List ℕ) → length (take 2 xs) ≤ 2
length-take_two [] = omega arith
length-take_two (x ∷ []) = omega arith
length-take_two (x ∷ y ∷ xs) = omega arith

abbrev here : ℕ → Bool → List ℕ
here i b = if b then i ∷ [] else []

record_access-accessed :
    (i : ℕ) (dest other : Bytes) (a : Accesses)
    → ((d : Bytes) → length (accessed d a) ≤ 2)
    → accessed dest (record_access i other (accessed other a) a)
      ≡ take 2 (accessed dest a ++ here i (bytes_equal other dest))
record_access-accessed i dest other a few =
    let step = record_access-at i dest other (accessed other a) a refl (few other) in
    elim (Bool-cases (bytes_equal other dest)) [
      | inl same ↦ rw (step, same) (rw ((bytes_equal_iff other dest).0 same))
      | inr differ ↦
          rw (step, differ) (rw (append-nil (accessed dest a)) (sym (take-few _ (few dest))))
    ]

positions-cons :
    (i : ℕ) (dest msg : Bytes) (msgs : List Bytes)
    → positions i dest (msg ∷ msgs)
      ≡ here i (bytes_equal (drop_of msg) dest) ++ positions (i + 1) dest msgs
unfolding positions
positions-cons i dest msg msgs = ground arith

-- The map holds the first two accesses of every dead drop.
count_accesses-accessed :
    (i : ℕ) (dest : Bytes) (msgs : List Bytes) (a : Accesses)
    → ((d : Bytes) → length (accessed d a) ≤ 2)
    → accessed dest (count_accesses i msgs a) ≡ take 2 (accessed dest a ++ positions i dest msgs)
unfolding count_accesses positions
count_accesses-accessed i dest [] a few =
    rw (append-nil (accessed dest a)) (sym (take-few _ (few dest)))
count_accesses-accessed i dest (msg ∷ msgs) a few =
    let a' = record_access i (drop_of msg) (accessed (drop_of msg) a) a in
    let at = here i (bytes_equal (drop_of msg) dest) in
    let few' : (d : Bytes) → length (accessed d a') ≤ 2 = λ d.
      rw (record_access-accessed i d (drop_of msg) a few)
        (length-take_two (accessed d a ++ here i (bytes_equal (drop_of msg) d))) in
    count_accesses-accessed (i + 1) dest msgs a' few'
    ∙ rw (record_access-accessed i dest (drop_of msg) a few) (
        take-take-append (accessed dest a ++ at) (positions (i + 1) dest msgs)
        ∙ ap (take 2) (
            append_assoc (accessed dest a) at (positions (i + 1) dest msgs)
            ∙ ap (◌++◌ (accessed dest a)) (sym (positions-cons i dest msg msgs))))

accessed-incoming :
    (incoming : List Bytes) (dest : Bytes)
    → accessed dest (count_accesses 0 incoming no_accesses) ≡ take 2 (positions 0 dest incoming)
unfolding lookup
accessed-incoming incoming dest =
    count_accesses-accessed 0 dest incoming no_accesses (λ d. omega arith)

replies_from-get_elem? :
    (incoming : List Bytes) (a : Accesses) (i k : ℕ) (msgs : List Bytes) {msg : Bytes}
    → get_elem? msgs k ≡ some msg
    → get_elem? (replies_from incoming a i msgs) k
      ≡ some (reply_for incoming (i + k) msg (accessed (drop_of msg) a))
unfolding replies_from
replies_from-get_elem? incoming a i k [] h = ground arith
replies_from-get_elem? incoming a i zero (m ∷ msgs) {msg} h =
    let e : i + 0 ≡ i = omega arith in rw (e, some_inj h)
replies_from-get_elem? incoming a i (suc k) (m ∷ msgs) {msg} h =
    let e : i + suc k ≡ i + 1 + k = omega arith in
    rw e (replies_from-get_elem? incoming a (i + 1) k msgs h)

-- A message's reply is decided by the first two accesses of its dead drop.
reply_decided :
    (incoming : List Bytes) (i : ℕ) (msg : Bytes)
    → get_elem? incoming i ≡ some msg
    → get_elem? (handle_messages incoming).0 i
      ≡ some (reply_for incoming i msg (take 2 (positions 0 (drop_of msg) incoming)))
unfolding handle_messages
reply_decided incoming i msg h =
    let e : 0 + i ≡ i = omega arith in
    replies_from-get_elem? incoming (count_accesses 0 incoming no_accesses) 0 i incoming h
    ∙ rw (e, accessed-incoming incoming (drop_of msg))

-- A message that is alone in its dead drop comes back as its own reply.
pub handle_messages-alone :
    (incoming : List Bytes) (i : ℕ) (msg : Bytes)
    → get_elem? incoming i ≡ some msg
    → positions 0 (drop_of msg) incoming ≡ i ∷ []
    → get_elem? (handle_messages incoming).0 i ≡ some (some (body_of msg))
unfolding reply_for
handle_messages-alone incoming i msg h p = reply_decided incoming i msg h ∙ rw p

positions-ge :
    (i : ℕ) (dest : Bytes) (msgs : List Bytes) {j : ℕ} {more : List ℕ}
    → positions i dest msgs ≡ j ∷ more
    → i ≤ j
unfolding positions
positions-ge i dest [] h = ground arith
positions-ge i dest (msg ∷ msgs) {j} {more} h = elim (Bool-cases (bytes_equal (drop_of msg) dest)) [
  | inl same ↦ ground arith
  | inr differ ↦
      let below : i + 1 ≤ j = positions-ge (i + 1) dest msgs {j = j} {more = more} (ground arith) in
      omega arith
]

positions-lt :
    (i : ℕ) (dest : Bytes) (msgs : List Bytes) {j k : ℕ} {more : List ℕ}
    → positions i dest msgs ≡ j ∷ k ∷ more
    → j < k
unfolding positions
positions-lt i dest [] h = ground arith
positions-lt i dest (msg ∷ msgs) {j = j} {k = k} {more = more} h =
    elim (Bool-cases (bytes_equal (drop_of msg) dest)) [
      | inl same ↦
          let below : i + 1 ≤ k =
            positions-ge (i + 1) dest msgs {j = k} {more = more} (ground arith) in
          ground arith
      | inr differ ↦ positions-lt (i + 1) dest msgs {more = more} (ground arith)
    ]

module _ (incoming : List Bytes) (dest first second : Bytes) (i j : ℕ) (more : List ℕ)
    (at_i : get_elem? incoming i ≡ some first) (at_j : get_elem? incoming j ≡ some second)
    (accesses : positions 0 dest incoming ≡ i ∷ j ∷ more) where
  -- The first two messages to a dead drop are exchanged.
  pub handle_messages-exchange :
      drop_of first ≡ dest
      → drop_of second ≡ dest
      → (get_elem? (handle_messages incoming).0 i ≡ some (some (body_of second)))
        × (get_elem? (handle_messages incoming).0 j ≡ some (some (body_of first)))
  unfolding reply_for
  handle_messages-exchange d1 d2 =
      let lt = positions-lt 0 dest incoming accesses in
      let self : (i == i) ≡ true = ground arith in
      let other : (j == i) ≡ false = ground arith in
      (
        reply_decided incoming i first at_i ∙ rw (d1, accesses) (rw self (rw (at_j, body_at))),
        reply_decided incoming j second at_j ∙ rw (d2, accesses) (rw other (rw (at_i, body_at))),
      )

  -- Every later message to a dead drop gets the first one's.
  pub handle_messages-late :
      (k : ℕ) (late : Bytes)
      → get_elem? incoming k ≡ some late
      → drop_of late ≡ dest
      → k ≢ i
      → get_elem? (handle_messages incoming).0 k ≡ some (some (body_of first))
  unfolding reply_for
  handle_messages-late k late at_k d ne =
      let other : (k == i) ≡ false = ground arith in
      reply_decided incoming k late at_k ∙ rw (d, accesses) (rw other (rw (at_i, body_at)))
