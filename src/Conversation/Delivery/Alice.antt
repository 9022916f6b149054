-- ===== src/Conversation/Delivery/Alice.antt =====
-- Alice's steps keep the invariant of the link from her to Bob.
use mathlib.Core.List.{Memᴰ, append_assoc, map-append}
use mathlib.Core.Path.{subst}
use Prim.Native.Nat.{min}
use gjallarhorn.Prelude.{
  ℕ, zero, suc, ◌+◌, ◌-◌, ◌≤◌, ◌<◌, ◌≡◌, refl, sym, ap, ◌∙◌, ◌⊎◌, inl, inr, Bool, List, [], ◌∷◌,
  ◌++◌, Option, some, some_inj, arith, length, length-append, length-map, length-drop, drop,
  drop-append, drop-drop, get_elem?-append_some, get_elem?-map, get_elem?-drop, get_elem?-lt_length,
}
use gjallarhorn.Prelude.Bytes.{Bytes, u32}
use gjallarhorn.Conversation.Message.{ConvoMessage, marshal, unmarshal, pad_text}
use gjallarhorn.Conversation.Message.RoundTrip.{over_wire, unmarshal-marshal}
use gjallarhorn.Conversation.Receiving.{Acked, Sound, Numbered}
use gjallarhorn.Conversation.Sending.{
  Picks-of_some, Sends, numbered, numbered-append, get_elem?-numbered, drop_acked-numbered,
  drop_acked-unbased,
}
use gjallarhorn.Conversation.{
  Conversation, KeywheelStart, activate, queue_text_message, pick_outgoing, round_base, accept,
  drop_acked, cover,
}
use gjallarhorn.Conversation.Delivery.{Link}
use gjallarhorn.Conversation.Delivery.Invariant.{Inv, Sent, padded}

pub alice_activates-Inv :
    (s : Link) (wheel : KeywheelStart) → Inv s → Inv (record s { alice = activate wheel s.alice })
unfolding activate
alice_activates-Inv s wheel v = record {
  count = v.count;
  fits = v.fits;
  acked = v.acked;
  queue = v.queue;
  acked_shown = v.acked_shown;
  rest = v.rest;
  prefix = v.prefix;
  level = v.level;
  holds = v.holds;
  sent = v.sent;
  acks = v.acks;
}

-- What has been typed before keeps its number.
Sound-append :
    (base d : ℕ) (ts us : List Bytes) (m : ConvoMessage)
    → Sound base ts d m
    → Sound base (ts ++ us) d m
Sound-append base d ts us m (inl c) = inl c
Sound-append base d ts us m (inr (j, p, s, t, l)) =
    inr (j, p, s, get_elem?-append_some ts us j t, l)

Numbered-append :
    (base : ℕ) (ts us : List Bytes) (i : ℕ) (t : Bytes)
    → Numbered base ts i t
    → Numbered base (ts ++ us) i t
Numbered-append base ts us i t (j, p, s, e) = (j, p, s, get_elem?-append_some ts us j e)

typing :
    (view : Bool) (text : Bytes) (c : Conversation)
    → let c' = queue_text_message view text c in
      (c'.out_queue ≡ c.out_queue ++ (record { relative_seq = c.relative_seq; msg = text } ∷ []))
      × (c'.relative_seq ≡ u32 (c.relative_seq + 1))
      × (c'.seq_base ≡ c.seq_base)
unfolding queue_text_message
typing view text c = ground arith

shown_bound : (s : Link) (v : Inv s) → length s.shown ≤ length s.typed
shown_bound s v =
    omega (arith, ap length v.prefix, length-append s.shown v.rest, length-map pad_text s.typed)

queue_grows :
    (s : Link) (text : Bytes) (v : Inv s)
    → s.alice.out_queue ++ (record { relative_seq = s.alice.relative_seq; msg = text } ∷ [])
      ≡ numbered v.acked (drop v.acked (s.typed ++ (text ∷ [])))
queue_grows s text v =
    let within : v.acked ≤ length s.typed = omega (arith, v.acked_shown, shown_bound s v) in
    let n : v.acked + length (drop v.acked s.typed) ≡ s.alice.relative_seq =
      omega (arith, v.count, length-drop v.acked s.typed) in
    rw (drop-append v.acked s.typed (text ∷ []) within) (
      rw (numbered-append v.acked (drop v.acked s.typed) text, n)
        (ap (λ os. os ++ (record { relative_seq = s.alice.relative_seq; msg = text } ∷ []))
          v.queue))

pub alice_types-Inv :
    (s : Link) (view : Bool) (text : Bytes)
    → s.alice.seq_base + (s.alice.relative_seq + 1) < 4294967296
    → Inv s
    → Inv
        (record s { alice = queue_text_message view text s.alice; typed = s.typed ++ (text ∷ []) })
alice_types-Inv s view text fit v =
    let (q, r, b) = typing view text s.alice in
    let len = length-append s.typed (text ∷ []) in
    let typed' : padded (s.typed ++ (text ∷ [])) ≡ padded s.typed ++ (pad_text text ∷ []) =
      map-append pad_text s.typed (text ∷ []) in
    record {
      count = omega (arith, v.count);
      fits = omega (arith, v.count);
      acked = v.acked;
      queue = q ∙ queue_grows s text v;
      acked_shown = v.acked_shown;
      rest = v.rest ++ (pad_text text ∷ []);
      prefix =
          typed' ∙ ap (λ ts. ts ++ (pad_text text ∷ [])) v.prefix ∙ append_assoc s.shown v.rest _;
      level = rw b v.level;
      holds = λ i t e. rw (b, typed') (Numbered-append _ (padded s.typed) _ i t (v.holds i t e));
      sent = λ m h. rw (b, typed') (Sound-append _ _ (padded s.typed) _ (over_wire m) (v.sent m h));
      acks = v.acks;
    }

-- Hearing from Bob drops only what he has acknowledged.
queue-hears :
    (base ack back k d : ℕ) (typed : List Bytes) (last : Option ℕ)
    → base + length typed < 4294967296
    → k ≤ length typed
    → k ≤ d
    → Acked base d back
    → ack ≤ back
    → (k' : ℕ) × ((drop_acked base ack (numbered k (drop k typed)) last).0
        ≡ numbered k' (drop k' typed))
      × (k' ≤ d)
queue-hears zero ack back k d typed last fit kt kd lv le =
    (k, drop_acked-unbased ack (numbered k (drop k typed)) last, kd)
queue-hears (suc b) ack back k d typed last fit kt kd lv le =
    let n = min (length (drop k typed)) (ack + 1 - (suc b + k)) in
    (
      k + n,
      drop_acked-numbered (suc b) ack k (drop k typed) last n (omega arith)
            (omega (arith, length-drop k typed)) refl
          ∙ ap (numbered (k + n)) (drop-drop k n typed),
      omega arith,
    )

pub alice_hears-Inv :
    (s : Link) (sent m : ConvoMessage)
    → Memᴰ sent s.from_bob
    → unmarshal (marshal sent) ≡ some m
    → Inv s
    → Inv (record s { alice = (accept m s.alice).0 })
unfolding accept
alice_hears-Inv s sent m mem e v =
    let em : over_wire sent ≡ m = some_inj (sym (unmarshal-marshal sent) ∙ e) in
    let back : m.ack ≤ s.bob.ack =
      omega (arith, ap (λ (x : ConvoMessage). x.ack) em, v.acks sent mem) in
    let (k, eq, kd) =
      queue-hears s.alice.seq_base m.ack s.bob.ack v.acked (length s.shown) s.typed s.alice.last_out
        v.fits (omega (arith, v.acked_shown, shown_bound s v)) v.acked_shown v.level back in
    record {
      count = v.count;
      fits = v.fits;
      acked = k;
      queue = ap (λ os. (drop_acked s.alice.seq_base m.ack os s.alice.last_out).0) v.queue ∙ eq;
      acked_shown = kd;
      rest = v.rest;
      prefix = v.prefix;
      level = v.level;
      holds = v.holds;
      sent = v.sent;
      acks = v.acks;
    }

-- The base is chosen once: before that, only cover traffic has been sent.
abbrev Rebased : ℕ → ℕ → Type 0
Rebased base base' = (base' ≡ base) ⊎ (base ≡ 0)

Numbered-rebase :
    (base base' : ℕ) (ts : List Bytes) (i : ℕ) (t : Bytes)
    → Rebased base base'
    → Numbered base ts i t
    → Numbered base' ts i t
Numbered-rebase base base' ts i t (inl e) n = rw e n
Numbered-rebase base base' ts i t (inr z) (j, p, r, q) = absurd (omega arith)

Sound-rebase :
    (base base' d : ℕ) (ts : List Bytes) (m : ConvoMessage)
    → Rebased base base'
    → Sound base ts d m
    → Sound base' ts d m
Sound-rebase base base' d ts m (inl e) s = rw e s
Sound-rebase base base' d ts m (inr z) (inl c) = inl c
Sound-rebase base base' d ts m (inr z) (inr (j, p, r, q, l)) = absurd (omega arith)

Acked-rebase : (base base' d ack : ℕ) → Rebased base base' → Acked base d ack → Acked base' d ack
Acked-rebase base base' d ack (inl e) k = rw e k
Acked-rebase base base' d ack (inr z) (inl k) = inl k
Acked-rebase base base' d ack (inr z) (inr k) = absurd (omega arith)

-- A text from the queue goes out under its own number.
Sends-Sent :
    (base k d ack : ℕ) (typed : List Bytes) (m : ConvoMessage)
    → 0 < base
    → base + length typed < 4294967296
    → k ≤ d
    → Sends (numbered k (drop k typed)) base ack m
    → Sent base typed d m
Sends-Sent base k d ack typed m pos fit kd p =
    let (number, text) = get_elem?-numbered k (drop k typed) p.index p.entry in
    let at = sym (get_elem?-drop k p.index typed) ∙ text in
    let small = get_elem?-lt_length typed (k + p.index) at in
    inr (
      k + p.index,
      pos,
      omega (arith, p.seq_is),
      get_elem?-map pad_text typed (k + p.index) (at ∙ ap some (sym p.text_is)),
      λ low. omega (arith, p.lowest_first low),
    )

base_chosen :
    (round length_typed : ℕ) (c : Conversation)
    → c.relative_seq ≡ length_typed
    → c.seq_base + length_typed < 4294967296
    → round + 1 + c.relative_seq < 4294967296
    → Rebased c.seq_base (round_base round c)
      × (0 < round_base round c)
      × (round_base round c + length_typed < 4294967296)
unfolding round_base
base_chosen round length_typed c n fit room = ground arith

picked_Sent :
    (s : Link) (round base_set : ℕ) (m : ConvoMessage) (v : Inv s)
    → round + 1 + s.alice.relative_seq < 4294967296
    → ((s.alice.out_queue ≡ []) × (m ≡ cover s.alice) × (base_set ≡ s.alice.seq_base))
      ⊎ ((base_set ≡ round_base round s.alice) × Sends s.alice.out_queue base_set s.alice.ack m)
    → Rebased s.alice.seq_base base_set
      × (base_set + length s.typed < 4294967296)
      × Sent base_set s.typed (length s.shown) m
picked_Sent s round base_set m v room (inl (_, cov, same)) =
    (inl same, omega (arith, v.fits), inl (omega (arith, ap (λ (x : ConvoMessage). x.seq) cov)))
picked_Sent s round base_set m v room (inr (chosen, sends)) =
    let (re, pos, fit) = base_chosen round (length s.typed) s.alice v.count v.fits room in
    (
      rw chosen re,
      rw chosen fit,
      Sends-Sent base_set v.acked (length s.shown) s.alice.ack s.typed m (omega arith) (omega arith)
          v.acked_shown (subst (λ os. Sends os base_set s.alice.ack m) v.queue sends),
    )

Sent-cons :
    (base d : ℕ) (typed : List Bytes) (m : ConvoMessage) (ms : List ConvoMessage)
    → Sent base typed d m
    → ((x : ConvoMessage) → Memᴰ x ms → Sent base typed d x)
    → (x : ConvoMessage) → Memᴰ x (m ∷ ms)
    → Sent base typed d x
Sent-cons base d typed m ms h hs x (Memᴰ.head e) = subst (Sent base typed d) (sym e) h
Sent-cons base d typed m ms h hs x (Memᴰ.tail t) = hs x t

pub alice_sends-Inv :
    (s : Link) (round : ℕ) (c : Conversation) (m : ConvoMessage)
    → pick_outgoing round s.alice ≡ some (c, m)
    → round + 1 + s.alice.relative_seq < 4294967296
    → Inv s
    → Inv (record s { alice = c; from_alice = m ∷ s.from_alice })
unfolding pick_outgoing
alice_sends-Inv s round c m e room v =
    let p = Picks-of_some s.alice.out_queue round s.alice c m e in
    let (re, fit, out) = picked_Sent s round p.base_set m v room p.cases in
    let base = s.alice.seq_base in
    rw p.after (record {
      count = v.count;
      fits = fit;
      acked = v.acked;
      queue = v.queue;
      acked_shown = v.acked_shown;
      rest = v.rest;
      prefix = v.prefix;
      level = Acked-rebase base p.base_set _ _ re v.level;
      holds = λ i t h. Numbered-rebase base p.base_set (padded s.typed) i t re (v.holds i t h);
      sent =
          Sent-cons p.base_set (length s.shown) s.typed m s.from_alice out
            (λ x h. Sound-rebase base p.base_set _ (padded s.typed) (over_wire x) re (v.sent x h));
      acks = v.acks;
    })
