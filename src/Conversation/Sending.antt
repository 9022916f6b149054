-- ===== src/Conversation/Sending.antt =====
-- The sending half: the queue of unacknowledged messages, and what `NextMessage` picks from it.
use native.Mathlib.Nat.{add-zero}
use Prim.Native.Nat.{min}
use mathlib.Core.Path.{subst}
use mathlib.Core.Option.{none-ne-some}
use gjallarhorn.Prelude.{
  ℕ, zero, suc, ◌+◌, ◌-◌, ◌<◌, ◌≤◌, ◌≡◌, ◌≢◌, refl, sym, ap, ◌∙◌, ◌⊎◌, inl, inr, Bool, Bool-cases,
  true, false, List, [], ◌∷◌, ◌++◌, Option, none, some, arith, ltb, leb, ◌&&◌, some_inj, length,
  get_elem?, get_elem?-some, drop,
}
use gjallarhorn.Prelude.Bytes.{Bytes, u32}
use gjallarhorn.Conversation.Message.{ConvoMessage}
use gjallarhorn.Conversation.{
  Conversation, SeqMsg, drop_acked, pick_from, next_out, round_base, step_back, cover, send_at,
}

-- The queue of the texts from number `k` on.
abbrev pub numbered : ℕ → List Bytes → List SeqMsg
numbered k [] = []
numbered k (t ∷ ts) = record { relative_seq = k; msg = t } ∷ numbered (suc k) ts

pub numbered-append :
    (k : ℕ) (ts : List Bytes) (t : Bytes)
    → numbered k (ts ++ (t ∷ []))
      ≡ numbered k ts ++ (record { relative_seq = k + length ts; msg = t } ∷ [])
numbered-append k [] t = let e : k + 0 ≡ k = omega arith in rw e
numbered-append k (u ∷ ts) t =
    let e : suc k + length ts ≡ k + suc (length ts) = omega arith in
    rw (numbered-append (suc k) ts t, e)

pub get_elem?-numbered :
    (k : ℕ) (ts : List Bytes) (i : ℕ) {o : SeqMsg}
    → get_elem? (numbered k ts) i ≡ some o
    → (o.relative_seq ≡ k + i) × (get_elem? ts i ≡ some o.msg)
get_elem?-numbered k [] i h = ground arith
get_elem?-numbered k (t ∷ ts) zero h = ground arith
get_elem?-numbered k (t ∷ ts) (suc i) h =
    let (a, b) = get_elem?-numbered (suc k) ts i h in (omega arith, b)

-- The loop over the queue drops the texts whose numbers the peer has acknowledged, and no other.
pub drop_acked-numbered :
    (base ack k : ℕ) (ts : List Bytes) (last : Option ℕ) (n : ℕ)
    → 0 < base
    → base + (k + length ts) < 4294967296
    → n ≡ min (length ts) (ack + 1 - (base + k))
    → (drop_acked base ack (numbered k ts) last).0 ≡ numbered (k + n) (drop n ts)
unfolding drop_acked
drop_acked-numbered base ack k [] last zero pos fit e = refl
drop_acked-numbered base ack k [] last (suc n) pos fit e = absurd (omega arith)
drop_acked-numbered base ack k (t ∷ ts) last zero pos fit e =
    let kept : (ltb 0 base && leb (u32 (k + base)) ack) ≡ false = ground arith in
    rw kept (
      let ih = drop_acked-numbered base ack (suc k) ts last zero pos (omega arith) (omega arith) in
      let k0 : k + 0 ≡ k = omega arith in rw (ih, k0) (rw (add-zero (suc k))))
drop_acked-numbered base ack k (t ∷ ts) last (suc n) pos fit e =
    let acked : (ltb 0 base && leb (u32 (k + base)) ack) ≡ true = ground arith in
    let e' : k + suc n ≡ suc k + n = omega arith in
    rw (acked, e')
      (drop_acked-numbered base ack (suc k) ts (step_back last) n pos (omega arith) (omega arith))

-- Before the first message nothing is dropped.
pub drop_acked-unbased :
    (ack : ℕ) (os : List SeqMsg) (last : Option ℕ) → (drop_acked 0 ack os last).0 ≡ os
unfolding drop_acked
drop_acked-unbased ack [] last = refl
drop_acked-unbased ack (o ∷ os) last = ap (◌∷◌ o) (drop_acked-unbased ack os last)

next_out-lt : (last : Option ℕ) (n : ℕ) → 0 < n → (next_out last n).0 < n
unfolding next_out
next_out-lt none n h = h
next_out-lt (some i) n h = ground arith

-- What a queued message looks like when it is sent.
pub record Sends (os : List SeqMsg) (base ack : ℕ) (m : ConvoMessage) : Type 0 where
  pub index : ℕ
  pub out : SeqMsg
  pub entry : get_elem? os index ≡ some out
  pub seq_is : m.seq ≡ u32 (out.relative_seq + base)
  pub ack_is : m.ack ≡ ack
  pub text_is : m.user_text ≡ out.msg
  pub lowest_first : m.lowest ≡ true → index ≡ 0

-- The turns through a queue of `n` entries: the entry after the last one that was sent, or the head,
-- which is marked as the lowest, when there was none or it was the queue's end.
abbrev pub Turn : Option ℕ → ℕ → ℕ → Bool → Type 0
Turn prev n i lowest =
    ((j : ℕ) × (prev ≡ some j) × (j + 1 < n) × (i ≡ j + 1) × (lowest ≡ false))
    ⊎ (((j : ℕ) → prev ≡ some j → n ≤ j + 1) × (i ≡ 0) × (lowest ≡ true))

-- The entry whose turn it is goes out, and its place is kept.
pub record TakesTurn (os : List SeqMsg) (base : ℕ) (prev last : Option ℕ) (m : ConvoMessage)
    : Type 0 where
  pub index : ℕ
  pub out : SeqMsg
  pub turn : Turn prev (length os) index m.lowest
  pub kept : last ≡ some index
  pub entry : get_elem? os index ≡ some out
  pub seq_is : m.seq ≡ u32 (out.relative_seq + base)
  pub text_is : m.user_text ≡ out.msg

-- A choice from the queue: the conversation changes in its base and its position only.
pub record Picks (os : List SeqMsg) (round : ℕ) (c c' : Conversation) (m : ConvoMessage)
    : Type 0 where
  pub last : Option ℕ
  pub base_set : ℕ
  pub after : c' ≡ record c { last_out = last; seq_base = base_set }
  pub cases :
      ((os ≡ []) × (m ≡ cover c) × (base_set ≡ c.seq_base))
      ⊎ ((base_set ≡ round_base round c) × Sends os base_set c.ack m)
  pub takes : os ≢ [] → TakesTurn os base_set c.last_out last m

next_out-Turn : (last : Option ℕ) (n : ℕ) → Turn last n (next_out last n).0 (next_out last n).1
unfolding next_out
next_out-Turn none n = inr ((λ j h. absurd (none-ne-some j h)), refl, refl)
next_out-Turn (some i) n = elim (Bool-cases (ltb (i + 1) n)) [
  | inl more ↦ rw more (inl (i, refl, ground arith, refl, refl))
  | inr end ↦ rw end (inr ((λ j h. let e : i ≡ j = some_inj h in ground arith), refl, refl))
]

next_out-lowest : (last : Option ℕ) (n : ℕ) → (next_out last n).1 ≡ true → (next_out last n).0 ≡ 0
unfolding next_out
next_out-lowest none n h = refl
next_out-lowest (some i) n h = ground arith

pub pick_from-Picks :
    (os : List SeqMsg) (round : ℕ) (c : Conversation)
    → (c' : Conversation) × (m : ConvoMessage) × (pick_from os round c ≡ some (c', m))
      × Picks os round c c' m
unfolding pick_from
pick_from-Picks [] round c = (
  c,
  cover c,
  refl,
  record {
    last = c.last_out;
    base_set = c.seq_base;
    after = refl;
    cases = inl (refl, refl, refl);
    takes = λ ne. absurd (ne refl);
  },
)
pick_from-Picks (o ∷ os) round c =
    let n = length (o ∷ os) in
    let choice = next_out c.last_out n in
    let (picked, found) =
      get_elem?-some (o ∷ os) choice.0 (next_out-lt c.last_out n (omega arith)) in
    let base = round_base round c in
    (
      record c { seq_base = base; last_out = some choice.0 },
      record {
        seq = u32 (picked.relative_seq + base);
        ack = c.ack;
        lowest = choice.1;
        user_text = picked.msg;
      },
      ap (send_at c base choice) found,
      record {
        last = some choice.0;
        base_set = base;
        after = refl;
        cases = inr (
          refl,
          record {
            index = choice.0;
            out = picked;
            entry = found;
            seq_is = refl;
            ack_is = refl;
            text_is = refl;
            lowest_first = next_out-lowest c.last_out n;
          },
        );
        takes = λ ne. record {
          index = choice.0;
          out = picked;
          turn = next_out-Turn c.last_out n;
          kept = refl;
          entry = found;
          seq_is = refl;
          text_is = refl;
        };
      },
    )

-- So what `NextMessage` has picked is what `Picks` says.
pub Picks-of_some :
    (os : List SeqMsg) (round : ℕ) (c c' : Conversation) (m : ConvoMessage)
    → pick_from os round c ≡ some (c', m)
    → Picks os round c c' m
Picks-of_some os round c c' m h =
    let (c1, m1, e, p) = pick_from-Picks os round c in
    subst (λ (r : Conversation × ConvoMessage). Picks os round c r.0 r.1) (some_inj (sym e ∙ h)) p
