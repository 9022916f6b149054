-- ===== src/Conversation/Delivery/Bob.antt =====
-- Bob's steps keep the invariant of the link from Alice to him.
use mathlib.Core.List.{Memᴰ, append_assoc}
use native.Mathlib.Nat.{le_trans}
use gjallarhorn.Prelude.{
  ℕ, ◌≤◌, ◌≡◌, refl, sym, ap, ◌∙◌, inl, inr, Bool, List, ◌∷◌, ◌++◌, some, some_inj, arith, length,
  length-append, length-map,
}
use gjallarhorn.Prelude.Bytes.{Bytes}
use gjallarhorn.Conversation.Message.{ConvoMessage, marshal, unmarshal, pad_text}
use gjallarhorn.Conversation.Message.RoundTrip.{over_wire, unmarshal-marshal}
use gjallarhorn.Conversation.Receiving.{Sound, receive-Advances, Advances}
use gjallarhorn.Conversation.Sending.{Picks-of_some}
use gjallarhorn.Conversation.{
  Conversation, KeywheelStart, activate, queue_text_message, pick_outgoing, accept, receive,
}
use gjallarhorn.Conversation.Delivery.{Link, hears}
use gjallarhorn.Conversation.Delivery.Invariant.{Inv, padded}

Sound-mono :
    (base : ℕ) (texts : List Bytes) (d d' : ℕ) (m : ConvoMessage)
    → d ≤ d'
    → Sound base texts d m
    → Sound base texts d' m
Sound-mono base texts d d' m le (inl c) = inl c
Sound-mono base texts d d' m le (inr (j, p, s, t, l)) = inr (j, p, s, t, λ low. le_trans (l low) le)

-- The invariant reads nothing of Bob but his inbox.
pub Inv-bob :
    (s : Link) (c : Conversation)
    → c.ack ≡ s.bob.ack
    → c.in_queue ≡ s.bob.in_queue
    → Inv s
    → Inv (record s { bob = c })
Inv-bob s c a q v = record {
  count = v.count;
  fits = v.fits;
  acked = v.acked;
  queue = v.queue;
  acked_shown = v.acked_shown;
  rest = v.rest;
  prefix = v.prefix;
  level = rw a v.level;
  holds = rw q v.holds;
  sent = v.sent;
  acks = rw a v.acks;
}

pub bob_types-Inv :
    (s : Link) (view : Bool) (text : Bytes)
    → Inv s
    → Inv (record s { bob = queue_text_message view text s.bob })
unfolding queue_text_message
bob_types-Inv s view text v = Inv-bob s _ (ground arith) (ground arith) v

pub bob_activates-Inv :
    (s : Link) (wheel : KeywheelStart) → Inv s → Inv (record s { bob = activate wheel s.bob })
unfolding activate
bob_activates-Inv s wheel v = Inv-bob s (activate wheel s.bob) refl refl v

message_ack :
    (s : Link) (round : ℕ) (c : Conversation) (m : ConvoMessage)
    → pick_outgoing round s.bob ≡ some (c, m)
    → (c.ack ≡ s.bob.ack) × (c.in_queue ≡ s.bob.in_queue) × (m.ack ≡ s.bob.ack)
unfolding pick_outgoing
message_ack s round c m e =
    let p = Picks-of_some s.bob.out_queue round s.bob c m e in
    (
      ap (λ (x : Conversation). x.ack) p.after,
      ap (λ (x : Conversation). x.in_queue) p.after,
      elim p.cases [
        | inl (_, cov, _) ↦ ap (λ (x : ConvoMessage). x.ack) cov
        | inr (_, sends) ↦ sends.ack_is
      ],
    )

acks-cons :
    (bound : ℕ) (m : ConvoMessage) (ms : List ConvoMessage)
    → m.ack ≤ bound
    → ((x : ConvoMessage) → Memᴰ x ms → x.ack ≤ bound)
    → (x : ConvoMessage) → Memᴰ x (m ∷ ms)
    → x.ack ≤ bound
acks-cons bound m ms h hs x (Memᴰ.head e) = rw e h
acks-cons bound m ms h hs x (Memᴰ.tail t) = hs x t

pub bob_sends-Inv :
    (s : Link) (round : ℕ) (c : Conversation) (m : ConvoMessage)
    → pick_outgoing round s.bob ≡ some (c, m)
    → Inv s
    → Inv (record s { bob = c; from_bob = m ∷ s.from_bob })
bob_sends-Inv s round c m e v =
    let (a, q, ma) = message_ack s round c m e in
    let w = Inv-bob s c a q v in
    record {
      count = w.count;
      fits = w.fits;
      acked = w.acked;
      queue = w.queue;
      acked_shown = w.acked_shown;
      rest = w.rest;
      prefix = w.prefix;
      level = w.level;
      holds = w.holds;
      sent = w.sent;
      acks = acks-cons c.ack m s.from_bob (omega arith) w.acks;
    }

heard :
    (s : Link) (sent : ConvoMessage)
    → Memᴰ sent s.from_alice
    → (v : Inv s)
    → Advances s.alice.seq_base
        (padded s.typed)
        v.rest
        (length s.shown)
        s.bob.ack
        (receive (over_wire sent) s.bob.in_queue s.bob.ack)
heard s sent mem v =
    receive-Advances s.alice.seq_base (over_wire sent) s.bob.in_queue s.bob.ack (length s.shown)
      (padded s.typed) s.shown v.rest (omega (arith, v.fits, length-map pad_text s.typed)) v.holds
      v.prefix refl v.level (v.sent sent mem)

pub bob_hears-Inv :
    (s : Link) (sent m : ConvoMessage)
    → Memᴰ sent s.from_alice
    → unmarshal (marshal sent) ≡ some m
    → Inv s
    → Inv (hears m s)
unfolding accept
bob_hears-Inv s sent m mem e v =
    let em : over_wire sent ≡ m = some_inj (sym (unmarshal-marshal sent) ∙ e) in
    let a = heard s sent mem v in
    rw (← em) (record {
      count = v.count;
      fits = v.fits;
      acked = v.acked;
      queue = v.queue;
      acked_shown = omega (arith, v.acked_shown, length-append s.shown _);
      rest = a.left;
      prefix = v.prefix ∙ ap (◌++◌ s.shown) a.split ∙ sym (append_assoc s.shown _ a.left);
      level = rw (length-append s.shown _) a.acked_all;
      holds = a.holds;
      sent = λ x h.
          Sound-mono s.alice.seq_base (padded s.typed) (length s.shown) _ (over_wire x)
            (omega (arith, length-append s.shown _)) (v.sent x h);
      acks = λ x h. le_trans (v.acks x h) a.grows;
    })
