-- ===== src/Conversation/Secrecy.antt =====
-- Which rounds' keys `Reply` keeps.
use gjallarhorn.Prelude.{
  ℕ, ◌+◌, ◌-◌, ◌≤◌, ◌<◌, ◌≡◌, refl, ◌||◌, none, arith, ltb, ◌==◌, if◌then◌else◌, Bool-cases,
  Option-cases, nat_eq, List, [], ◌∷◌, ◌&&◌, inl, inr, not,
}
use gjallarhorn.Prelude.Bytes.{Bytes, u32, bytes_equal}
use gjallarhorn.Prelude.Maps.{Map, lookup, delete, lookup-delete, lookup-retain}
use gjallarhorn.Conversation.Message.{unmarshal}
use gjallarhorn.Conversation.Keys.{Crypto}
use gjallarhorn.Conversation.{
  Conversation, ConvoRound, forget_rounds, read_reply, reply, accept, open_message, solo, responded,
  show_all, mark_unread,
}

show_all_rounds : (c : Conversation) (ts : List Bytes) → (show_all (c, ts)).0.rounds ≡ c.rounds
unfolding mark_unread
show_all_rounds c [] = refl
show_all_rounds c (t ∷ ts) = ground arith

read_reply_rounds :
    (x : Crypto) (now round : ℕ) (encmsg : Bytes) (st : ConvoRound) (c : Conversation)
    → (responded c (read_reply x now round encmsg st c)).0.rounds ≡ c.rounds
unfolding read_reply
read_reply_rounds x now round encmsg st c =
    elim (Bool-cases (bytes_equal encmsg st.sent_message && not (solo c))) [
      | inl echo ↦ rw (echo, read_reply)
      | inr other ↦ elim (Option-cases (open_message x encmsg round st.round_key c)) [
        | inl shut ↦ rw (other, shut, read_reply)
        | inr (msgdata, opened) ↦ elim (Option-cases (unmarshal msgdata)) [
          | inl bad ↦ rw (other, opened, bad, read_reply)
          | inr (m, good) ↦
              rw (other, opened, good, read_reply)
                (show_all_rounds (accept m (record c { last_latency = now - st.created })).0
                  (accept m (record c { last_latency = now - st.created })).1)
        ]
      ]
    ]

-- `Reply` reads and changes the rounds in its first locked part only.
reply_rounds :
    (x : Crypto) (now round : ℕ) (encmsg : Bytes) (c : Conversation)
    → (reply x now round encmsg c).0.rounds ≡ forget_rounds round c.rounds
unfolding reply
reply_rounds x now round encmsg c = elim (Option-cases (lookup round c.rounds)) [
  | inl missing ↦ rw (missing, reply)
  | inr (st, found) ↦
      rw (found, reply)
        (read_reply_rounds x now round encmsg st
          (record c { rounds = forget_rounds round c.rounds }))
]

forget_rounds-lookup :
    (round r : ℕ) (m : Map ℕ ConvoRound)
    → lookup r (forget_rounds round m) ≡ (
        if ltb r (u32 (round + 4294967296 - 10))
        then none
        else if round == r
        then none
        else lookup r m)
unfolding forget_rounds
forget_rounds-lookup round r m = ground (
  arith,
  lookup-retain (λ i. not (ltb i (u32 (round + 4294967296 - 10)))) r (delete round m),
  lookup-delete round r m,
)

-- After `Reply` for a round that is not among the first ten, the conversation has the key of no
-- round more than ten rounds older, nor of the round itself; it keeps every other round.
pub reply-forgets :
    (x : Crypto) (now round r : ℕ) (encmsg : Bytes) (c : Conversation)
    → 10 ≤ round
    → round < 4294967296
    → lookup r (reply x now round encmsg c).0.rounds
      ≡ (if round == r || ltb r (round - 10) then none else lookup r c.rounds)
reply-forgets x now round r encmsg c old fit =
    rw (reply_rounds x now round encmsg c, forget_rounds-lookup round r c.rounds) (ground arith)

-- In the first ten rounds `round-10` wraps: `Reply` then forgets every round in flight.
pub reply-forgets_all :
    (x : Crypto) (now round r : ℕ) (encmsg : Bytes) (c : Conversation)
    → round < 10
    → r < 4294967286
    → lookup r (reply x now round encmsg c).0.rounds ≡ none
reply-forgets_all x now round r encmsg c early fit =
    rw (reply_rounds x now round encmsg c, forget_rounds-lookup round r c.rounds) (ground arith)
