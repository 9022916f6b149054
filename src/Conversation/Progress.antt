-- ===== src/Conversation/Progress.antt =====
-- The loops of the receiving half come to their end, and a lowest message gets through.
use gjallarhorn.Prelude.{
  ℕ, zero, suc, ◌+◌, ◌-◌, ◌<◌, ◌≡◌, refl, true, List, ◌∷◌, none, some, arith, ltb, if◌then◌else◌,
  Option-cases, nat_eq, length, inl, inr,
}
use gjallarhorn.Prelude.Bytes.{Bytes, u32}
use gjallarhorn.Prelude.Maps.{Map, lookup, delete, insert, lookup-insert, length-delete}
use gjallarhorn.Conversation.Message.{ConvoMessage}
use gjallarhorn.Conversation.{deliver, receive}

-- The loop over the queue ends by its own test: with more rounds than the queue has bindings,
-- the number after the last acknowledged one is not in the queue that is left.
deliver_stops :
    (f i : ℕ) (q : Map ℕ Bytes) (ack : ℕ)
    → length q < f
    → i ≡ u32 (ack + 1)
    → lookup (u32 ((deliver f i q ack).acked + 1)) (deliver f i q ack).queue ≡ none
unfolding deliver
deliver_stops zero i q ack lt e = absurd (omega arith)
deliver_stops (suc f) i q ack lt e = elim (Option-cases (lookup i q)) [
  | inl stop ↦ rw (stop, deliver) (rw (← e) stop)
  | inr (t, hit) ↦
      rw (hit, deliver)
        (deliver_stops f (u32 (i + 1)) (delete i q) i (omega (arith, length-delete i q hit)) refl)
]

-- After a message that is new, the queue does not hold the number that comes next: everything that
-- could be displayed has been.
pub receive_complete :
    (m : ConvoMessage) (q : Map ℕ Bytes) (ack : ℕ)
    → ack < m.seq
    → lookup (u32 ((receive m q ack).acked + 1)) (receive m q ack).queue ≡ none
unfolding receive
receive_complete m q ack new =
    let test : ltb ack m.seq ≡ true = ground arith in
    let q' = insert m.seq m.user_text q in
    let ack' = if m.lowest then m.seq - 1 else ack in
    rw test (deliver_stops (suc (length q')) (u32 (ack' + 1)) q' ack' (omega arith) refl)

deliver_first :
    (f i : ℕ) (q : Map ℕ Bytes) (ack : ℕ) (t : Bytes)
    → lookup i q ≡ some t
    → (more : List Bytes) × ((deliver (suc f) i q ack).shown ≡ t ∷ more)
unfolding deliver
deliver_first f i q ack t hit = ((deliver f (u32 (i + 1)) (delete i q) i).shown, rw (hit, deliver))

-- A new message that its sender marks as the lowest is displayed at once, before any other.
pub receive_lowest :
    (m : ConvoMessage) (q : Map ℕ Bytes) (ack : ℕ)
    → m.lowest ≡ true
    → ack < m.seq
    → m.seq < 4294967296
    → (more : List Bytes) × ((receive m q ack).shown ≡ m.user_text ∷ more)
unfolding receive
receive_lowest m q ack low new fit =
    let test : ltb ack m.seq ≡ true = ground arith in
    let i : u32 (m.seq - 1 + 1) ≡ m.seq = omega arith in
    let q' = insert m.seq m.user_text q in
    rw (test, low, i)
      (deliver_first (length q') m.seq q' (m.seq - 1) m.user_text
        (ground (arith, lookup-insert m.seq m.seq m.user_text q)))
