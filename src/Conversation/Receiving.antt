-- ===== src/Conversation/Receiving.antt =====
-- The receiving half of `Reply`: the queue of out-of-order messages and the acknowledged number.
use mathlib.Core.List.{append_assoc}
use native.Mathlib.Nat.{le_refl, le_trans}
use gjallarhorn.Prelude.{
  ℕ, zero, suc, ◌+◌, ◌-◌, ◌≤◌, ◌<◌, ◌≡◌, refl, sym, ap, ◌∙◌, ◌⊎◌, inl, inr, Bool, true, false, List,
  [], ◌∷◌, ◌++◌, some, arith, ltb, ◌==◌, if◌then◌else◌, Bool-cases, Option-cases, ==_iff, nat_eq,
  length, length-append, get_elem?, get_elem?-lt_length,
}
use gjallarhorn.Prelude.Bytes.{Bytes, u32}
use gjallarhorn.Prelude.Maps.{Map, lookup, delete, insert, lookup-delete, lookup-insert}
use gjallarhorn.Conversation.Message.{ConvoMessage}
use gjallarhorn.Conversation.{Inbox, deliver, receive}

-- Sequence number `i` stands for entry `i - base` of the peer's texts.
abbrev pub Numbered : ℕ → List Bytes → ℕ → Bytes → Type 0
Numbered base texts i t = (j : ℕ) × (0 < base) × (i ≡ base + j) × (get_elem? texts j ≡ some t)

abbrev pub Holds : ℕ → List Bytes → Map ℕ Bytes → Type 0
Holds base texts q = (i : ℕ) (t : Bytes) → lookup i q ≡ some t → Numbered base texts i t

-- The first `d` texts are acknowledged.
abbrev pub Acked : ℕ → ℕ → ℕ → Type 0
Acked base d ack = ((d ≡ 0) × (ack ≡ 0)) ⊎ ((0 < base) × (ack + 1 ≡ base + d))

-- The inbox has moved on along `rest`, the texts not yet displayed.
pub record Advances (base : ℕ) (texts rest : List Bytes) (d ack : ℕ) (r : Inbox) : Type 0 where
  pub left : List Bytes
  pub split : rest ≡ r.shown ++ left
  pub acked_all : Acked base (d + length r.shown) r.acked
  pub holds : Holds base texts r.queue
  pub grows : ack ≤ r.acked

Holds-delete :
    (base : ℕ) (texts : List Bytes) (i : ℕ) (q : Map ℕ Bytes)
    → Holds base texts q
    → Holds base texts (delete i q)
Holds-delete base texts i q h j t e = h j t (ground (arith, lookup-delete i j q))

Holds-insert :
    (base : ℕ) (texts : List Bytes) (i : ℕ) (v : Bytes) (q : Map ℕ Bytes)
    → Numbered base texts i v
    → Holds base texts q
    → Holds base texts (insert i v q)
Holds-insert base texts i v q n h j t e = elim (Bool-cases (i == j)) [
  | inl same ↦
      let ev : v ≡ t = ground (arith, lookup-insert i j v q) in rw (← (==_iff i j).0 same, ← ev) n
  | inr other ↦ h j t (ground (arith, lookup-insert i j v q))
]

-- The entry at the end of `before` is the head of what follows.
next_entry :
    (before rest : List Bytes) {t : Bytes}
    → get_elem? (before ++ rest) (length before) ≡ some t
    → (rest' : List Bytes) × (rest ≡ t ∷ rest')
next_entry [] [] h = ground arith
next_entry [] (r ∷ rest) {t} h = (rest, ground arith)
next_entry (b ∷ before) rest h = next_entry before rest h

stays :
    (base : ℕ) (texts rest : List Bytes) (d ack : ℕ) (q : Map ℕ Bytes)
    → Holds base texts q
    → Acked base d ack
    → Advances base texts rest d ack (record { queue = q; acked = ack; shown = [] })
stays base texts rest d ack q h k = record {
  left = rest;
  split = refl;
  acked_all = let e : d + 0 ≡ d = omega arith in rw e k;
  holds = h;
  grows = le_refl ack;
}

shows_one :
    (base : ℕ) (texts rest rest' : List Bytes) (d ack i : ℕ) (t : Bytes) (r : Inbox)
    → rest ≡ t ∷ rest'
    → i ≡ ack + 1
    → Advances base texts rest' (d + 1) i r
    → Advances base texts rest d ack
        (record { queue = r.queue; acked = r.acked; shown = t ∷ r.shown })
shows_one base texts rest rest' d ack i t r er ei a = record {
  left = a.left;
  split = er ∙ ap (◌∷◌ t) a.split;
  acked_all =
      let e : d + 1 + length r.shown ≡ d + suc (length r.shown) = omega arith in
      rw (← e) a.acked_all;
  holds = a.holds;
  grows = omega (arith, a.grows);
}

deliver-Advances :
    (base : ℕ) (f i : ℕ) (q : Map ℕ Bytes) (ack d : ℕ) (texts before rest : List Bytes)
    → base + length texts < 4294967296
    → Holds base texts q
    → texts ≡ before ++ rest
    → d ≡ length before
    → i ≡ ack + 1
    → Acked base d ack
    → Advances base texts rest d ack (deliver f i q ack)
unfolding deliver
deliver-Advances base zero i q ack d texts before rest fit h s e ei k =
    stays base texts rest d ack q h k
deliver-Advances base (suc f) i q ack d texts before rest fit h s e ei k =
    elim (Option-cases (lookup i q)) [
      | inl stop ↦ rw (stop, deliver) (stays base texts rest d ack q h k)
      | inr (t, hit) ↦
          let (j, pos, ij, tj) = h i t hit in
          let dj : j ≡ d = omega arith in
          let (rest', er) = next_entry before rest (rw (dj, e, s) at tj) in
          let small : u32 (i + 1) ≡ i + 1 = omega (arith, get_elem?-lt_length texts j tj) in
          rw (hit, deliver)
            (shows_one base texts rest rest' d ack i t _ er ei (
              deliver-Advances base f (u32 (i + 1)) (delete i q) i (d + 1) texts
                (before ++ (t ∷ [])) rest' fit (Holds-delete base texts i q h)
                (s ∙ rw er (sym (append_assoc before (t ∷ []) rest')))
                (omega (arith, length-append before (t ∷ []))) small (inr (pos, omega arith))))
    ]

-- What the peer may have sent: cover traffic, or a text with its number; a text marked as the
-- lowest has nothing before it that is not acknowledged.
abbrev pub Sound : ℕ → List Bytes → ℕ → ConvoMessage → Type 0
Sound base texts d m =
    (m.seq ≡ 0)
    ⊎ ((j : ℕ) × (0 < base)
        × (m.seq ≡ base + j)
        × (get_elem? texts j ≡ some m.user_text)
        × (m.lowest ≡ true → j ≤ d))

from_lower :
    (base : ℕ) (texts rest : List Bytes) (d ack ack' : ℕ) {r : Inbox}
    → ack ≤ ack'
    → Advances base texts rest d ack' r
    → Advances base texts rest d ack r
from_lower base texts rest d ack ack' le a = record {
  left = a.left;
  split = a.split;
  acked_all = a.acked_all;
  holds = a.holds;
  grows = le_trans le a.grows;
}

-- The acknowledged number that the chain starts from.
chain_start :
    (base seq ack d j : ℕ) (lowest : Bool)
    → Acked base d ack
    → 0 < base
    → seq ≡ base + j
    → (lowest ≡ true → j ≤ d)
    → ack < seq
    → Acked base d (if lowest then seq - 1 else ack)
      × (ack ≤ (if lowest then seq - 1 else ack))
      × ((if lowest then seq - 1 else ack) ≤ seq)
chain_start base seq ack d j true k pos sj low new =
    (inr (pos, omega (arith, low refl)), omega arith, omega arith)
chain_start base seq ack d j false k pos sj low new = (k, omega arith, omega arith)

receive_text :
    (base : ℕ) (m : ConvoMessage) (q : Map ℕ Bytes) (ack d : ℕ) (texts before rest : List Bytes)
    → base + length texts < 4294967296
    → Holds base texts q
    → texts ≡ before ++ rest
    → d ≡ length before
    → Acked base d ack
    → Numbered base texts m.seq m.user_text
    → (m.lowest ≡ true → m.seq ≤ base + d)
    → ltb ack m.seq ≡ true
    → Advances base texts rest d ack (receive m q ack)
unfolding receive
receive_text base m q ack d texts before rest fit h s e k (i, pos, si, ti) low new =
    let (k', le, small) =
      chain_start base m.seq ack d i m.lowest k pos si (λ l. omega (arith, low l)) (ground arith) in
    let q' = insert m.seq m.user_text q in
    let ack' = if m.lowest then m.seq - 1 else ack in
    rw new (
      from_lower base texts rest d ack ack' le (
        deliver-Advances base (suc (length q')) (u32 (ack' + 1)) q' ack' d texts before rest fit
          (Holds-insert base texts m.seq m.user_text q (i, pos, si, ti) h) s e
          (omega (arith, get_elem?-lt_length texts i ti)) k'))

-- Whatever sound message arrives, in whatever order, the inbox displays the next texts in order.
pub receive-Advances :
    (base : ℕ) (m : ConvoMessage) (q : Map ℕ Bytes) (ack d : ℕ) (texts before rest : List Bytes)
    → base + length texts < 4294967296
    → Holds base texts q
    → texts ≡ before ++ rest
    → d ≡ length before
    → Acked base d ack
    → Sound base texts d m
    → Advances base texts rest d ack (receive m q ack)
unfolding receive
receive-Advances base m q ack d texts before rest fit h s e k (inl cover) =
    let old : ltb ack m.seq ≡ false = ground arith in rw old (stays base texts rest d ack q h k)
receive-Advances base m q ack d texts before rest fit h s e k (inr (j, pos, sj, tj, low)) =
    elim (Bool-cases (ltb ack m.seq)) [
      | inl new ↦
          receive_text base m q ack d texts before rest fit h s e k (j, pos, sj, tj)
            (λ l. omega (arith, low l)) new
      | inr old ↦ rw (old, receive) (stays base texts rest d ack q h k)
    ]
