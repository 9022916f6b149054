-- ===== src/Client/Active.antt =====
-- The active conversations of a client: `Outgoing`, `Replies`, `activateConvo` and
-- `deactivateConvo` of cmd/gjallarhorn-client/gui.go. A conversation is known by its number, and the
-- order of Go's map is the list's.
pub mod Snapshot
use mathlib.Core.Option.{none-ne-some}
use gjallarhorn.Prelude.{
  ℕ, zero, suc, ◌+◌, ◌-◌, ◌≤◌, ◌≡◌, refl, ap, ◌∙◌, Bool, true, false, List, [], ◌∷◌, ◌++◌, map,
  Option, none, some, some_inj, if◌then◌else◌, ltb, ◌==◌, arith, Bool-cases, inl, inr, length,
  get_elem?, get_elem?-some, get_elem?-append_some, get_elem?-map, length-append, length-map,
  nat_eq,
}
use gjallarhorn.Prelude.Maps.{Map, lookup, insert, delete, lookup-insert_same}
use gjallarhorn.Prelude.Bytes.{Bytes}
use gjallarhorn.Convo.{DeadDropMessage}

abbrev pub num_outgoing : ℕ
num_outgoing = 5

pub record GuiClient : Type 0 where
  pub active : List ℕ
  pub pending_rounds : Map ℕ (List ℕ)

abbrev pub member : ℕ → List ℕ → Bool
member k [] = false
member k (j ∷ js) = if j == k then true else member k js

abbrev pub remove : ℕ → List ℕ → List ℕ
remove k [] = []
remove k (j ∷ js) = if j == k then remove k js else j ∷ remove k js

-- `activateConvo`, on the set of active conversations.
unfoldable pub activate_convo : ℕ → GuiClient → GuiClient × Bool
activate_convo k gc =
    if ltb (length gc.active) num_outgoing
    then (record gc { active = if member k gc.active then gc.active else k ∷ gc.active }, true)
    else (gc, false)

unfoldable pub deactivate_convo : ℕ → GuiClient → GuiClient × Bool
deactivate_convo k gc =
    if member k gc.active then (record gc { active = remove k gc.active }, true) else (gc, false)

-- The loop that fills up with random messages: at most `NumOutgoing` turns.
unfoldable pub cover : (ℕ → DeadDropMessage) → ℕ → List DeadDropMessage
cover random zero = []
cover random (suc n) = random n ∷ cover random n

-- `Outgoing`, with each conversation's `NextMessage` for the round.
unfoldable pub outgoing :
    (ℕ → DeadDropMessage) → (ℕ → DeadDropMessage) → GuiClient → ℕ → GuiClient × List DeadDropMessage
unfolding cover
outgoing next random gc round = (
  record gc { pending_rounds = insert round gc.active gc.pending_rounds },
  map next gc.active ++ cover random (num_outgoing - length gc.active),
)

-- The loop of `Replies`: which conversation gets which reply; `none` is an index out of range.
unfoldable pub reply_from : ℕ → List ℕ → List (Option Bytes) → Option (List (ℕ × Option Bytes))
reply_from i [] replies = some []
reply_from i (k ∷ ks) replies =
    let rest = reply_from (i + 1) ks replies in
    elim (get_elem? replies i) [
      | none ↦ none
      | some r ↦ elim rest [ none ↦ none | some given ↦ some ((k, r) ∷ given) ]
    ]

-- A missing round has no active conversations.
abbrev pub pending : Option (List ℕ) → List ℕ
pending none = []
pending (some ks) = ks

unfoldable pub replies :
    GuiClient → ℕ → List (Option Bytes) → GuiClient × Option (List (ℕ × Option Bytes))
unfolding reply_from
replies gc round rs = (
  record gc { pending_rounds = delete round gc.pending_rounds },
  reply_from 0 (pending (lookup round gc.pending_rounds)) rs,
)

-- What the user does: at most `NumOutgoing` conversations are active at any time.
pub data Reaches : GuiClient → Type 0 where
  start : Reaches (record { active = []; pending_rounds = [] })
  activates : (k : ℕ) {gc : GuiClient} → Reaches gc → Reaches (activate_convo k gc).0
  deactivates : (k : ℕ) {gc : GuiClient} → Reaches gc → Reaches (deactivate_convo k gc).0
  sends :
      (next random : ℕ → DeadDropMessage) (round : ℕ) {gc : GuiClient}
      → Reaches gc
      → Reaches (outgoing next random gc round).0
  receives :
      (round : ℕ) (rs : List (Option Bytes)) {gc : GuiClient}
      → Reaches gc
      → Reaches (replies gc round rs).0

pub length-remove : (k : ℕ) (js : List ℕ) → length (remove k js) ≤ length js
length-remove k [] = omega arith
length-remove k (j ∷ js) = ground (arith, length-remove k js)

pub Reaches-bounded : {gc : GuiClient} → Reaches gc → length gc.active ≤ 5
unfolding activate_convo deactivate_convo outgoing replies
Reaches-bounded start = omega arith
Reaches-bounded (activates k {gc} r) = elim (Bool-cases (ltb (length gc.active) 5)) [
  | inr full ↦ rw (activate_convo, full) (Reaches-bounded r)
  | inl room ↦ elim (Bool-cases (member k gc.active)) [
    | inl old ↦ rw (activate_convo, room, old) (Reaches-bounded r)
    | inr new ↦ rw (activate_convo, room, new) (ground arith)
  ]
]
Reaches-bounded (deactivates k {gc} r) = elim (Bool-cases (member k gc.active)) [
  | inl there ↦
      rw (deactivate_convo, there) (omega (arith, length-remove k gc.active, Reaches-bounded r))
  | inr away ↦ rw (deactivate_convo, away) (Reaches-bounded r)
]
Reaches-bounded (sends next random round r) = Reaches-bounded r
Reaches-bounded (receives round rs r) = Reaches-bounded r

length-cover : (random : ℕ → DeadDropMessage) (n : ℕ) → length (cover random n) ≡ n
unfolding cover
length-cover random zero = refl
length-cover random (suc n) = ap suc (length-cover random n)

-- However a user starts and ends conversations, a client sends five messages in every round: how
-- many conversations are active does not show.
pub outgoing-length :
    (next random : ℕ → DeadDropMessage) (round : ℕ) (gc : GuiClient)
    → Reaches gc
    → length (outgoing next random gc round).1 ≡ 5
unfolding outgoing
outgoing-length next random round gc r = omega (
  arith,
  length-append (map next gc.active) (cover random (5 - length gc.active)),
  length-map next gc.active,
  length-cover random (5 - length gc.active),
  Reaches-bounded r,
)
