-- ===== src/Convo.antt =====
-- The conversation service of the last mix server: convo/mixer.go. A message has the 272 bytes that
-- the mixnet's size check has let through, a dead drop of 16 bytes and a box of 256; on a shorter
-- one the slices of the source would panic, and here they are cut short.
pub mod Exchange
pub mod Counts
pub mod Noise
pub mod Wire
pub mod Service
pub mod Across
pub mod Config
mod Examples
pub mod Crossing
use gjallarhorn.Prelude.{
  ℕ, suc, zero, ◌+◌, ◌-◌, ◌≡◌, Bool, true, false, List, [], ◌∷◌, ◌++◌, Option, none, some, ◌==◌,
  if◌then◌else◌, length, get_elem?, take, drop,
}
use gjallarhorn.Prelude.Bytes.{Bytes, bytes_eq}
use gjallarhorn.Prelude.Maps.{Map, lookup, insert}

pub record DeadDropMessage : Type 0 where
  pub drop_id : Bytes
  pub encrypted_message : Bytes

-- `msg[0:16]` and `msg[16 : 16+SizeEncryptedMessageBody]`.
abbrev pub drop_of : Bytes → Bytes
drop_of msg = take 16 msg

abbrev pub body_of : Bytes → Bytes
body_of msg = take 256 (drop 16 msg)

-- The indices that have accessed a dead drop. A missing key of a Go map reads as nil.
abbrev pub or_nil : Option (List ℕ) → List ℕ
or_nil none = []
or_nil (some is) = is

pub record Accesses : Type 0 where
  pub dead_drops : Map Bytes (List ℕ)
  pub singles : ℕ
  pub doubles : ℕ

abbrev pub accessed : Bytes → Accesses → List ℕ
accessed dest a = or_nil (lookup dest a.dead_drops)

-- The `switch` on the accesses so far. `singles--` undoes an earlier `singles++`.
unfoldable pub record_access : ℕ → Bytes → List ℕ → Accesses → Accesses
record_access i dest [] a = record a {
  dead_drops = insert dest (i ∷ []) a.dead_drops;
  singles = a.singles + 1;
}
record_access i dest (j ∷ []) a = record a {
  dead_drops = insert dest (j ∷ i ∷ []) a.dead_drops;
  singles = a.singles - 1;
  doubles = a.doubles + 1;
}
record_access i dest (j ∷ k ∷ more) a = a

-- The first loop of `HandleMessages`, from index `i` on.
unfoldable pub count_accesses : ℕ → List Bytes → Accesses → Accesses
unfolding record_access
count_accesses i [] a = a
count_accesses i (msg ∷ msgs) a =
    count_accesses (i + 1) msgs (record_access i (drop_of msg) (accessed (drop_of msg) a) a)

abbrev pub body_at : List Bytes → ℕ → Option Bytes
body_at incoming i = elim (get_elem? incoming i) [ none ↦ none | some msg ↦ some (body_of msg) ]

-- The reply to message `i`, by the accesses of its dead drop; `none` is a nil reply.
unfoldable pub reply_for : List Bytes → ℕ → Bytes → List ℕ → Option Bytes
reply_for incoming i msg [] = none
reply_for incoming i msg (j ∷ []) = some (body_of msg)
reply_for incoming i msg (j ∷ k ∷ []) = if i == j then body_at incoming k else body_at incoming j
reply_for incoming i msg (j ∷ k ∷ l ∷ more) = none

-- The parallel loop: each round writes its own reply only.
unfoldable pub replies_from : List Bytes → Accesses → ℕ → List Bytes → List (Option Bytes)
unfolding reply_for
replies_from incoming a i [] = []
replies_from incoming a i (msg ∷ msgs) =
    reply_for incoming i msg (accessed (drop_of msg) a) ∷ replies_from incoming a (i + 1) msgs

abbrev pub no_accesses : Accesses
no_accesses = record { dead_drops = []; singles = 0; doubles = 0 }

-- `HandleMessages`: the replies, and the counts that go to the channel.
unfoldable pub handle_messages : List Bytes → List (Option Bytes) × ℕ × ℕ
unfolding count_accesses replies_from
handle_messages incoming =
    let a = count_accesses 0 incoming no_accesses in
    (replies_from incoming a 0 incoming, a.singles, a.doubles)
