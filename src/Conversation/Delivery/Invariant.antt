-- ===== src/Conversation/Delivery/Invariant.antt =====
-- The invariant of a link from Alice to Bob.
use mathlib.Core.List.{Memᴰ}
use mathlib.Core.Option.{none-ne-some}
use gjallarhorn.Prelude.{ℕ, ◌+◌, ◌≤◌, ◌<◌, ◌≡◌, refl, inl, List, [], ◌++◌, map, arith, length, drop}
use gjallarhorn.Prelude.Maps.{lookup}
use gjallarhorn.Prelude.Bytes.{Bytes}
use gjallarhorn.Conversation.Message.{ConvoMessage, pad_text}
use gjallarhorn.Conversation.Message.RoundTrip.{over_wire}
use gjallarhorn.Conversation.Receiving.{Holds, Acked, Sound}
use gjallarhorn.Conversation.Sending.{numbered}
use gjallarhorn.Conversation.{init}
use gjallarhorn.Conversation.Delivery.{Link, start}

abbrev pub padded : List Bytes → List Bytes
padded ts = map pad_text ts

-- What Alice may have sent: cover traffic, or a typed text with its number; one marked as the
-- lowest has nothing undisplayed before it.
abbrev pub Sent : ℕ → List Bytes → ℕ → ConvoMessage → Type 0
Sent base typed d m = Sound base (padded typed) d (over_wire m)

pub record Inv (s : Link) : Type 0 where
  pub count : s.alice.relative_seq ≡ length s.typed
  pub fits : s.alice.seq_base + length s.typed < 4294967296
  pub acked : ℕ
  pub queue : s.alice.out_queue ≡ numbered acked (drop acked s.typed)
  pub acked_shown : acked ≤ length s.shown
  pub rest : List Bytes
  pub prefix : padded s.typed ≡ s.shown ++ rest
  pub level : Acked s.alice.seq_base (length s.shown) s.bob.ack
  pub holds : Holds s.alice.seq_base (padded s.typed) s.bob.in_queue
  pub sent :
      (m : ConvoMessage) → Memᴰ m s.from_alice → Sent s.alice.seq_base s.typed (length s.shown) m
  pub acks : (m : ConvoMessage) → Memᴰ m s.from_bob → m.ack ≤ s.bob.ack

pub start-Inv : (alice bob : Bytes) → Inv (start alice bob)
unfolding start init lookup
start-Inv alice bob = record {
  count = refl;
  fits = omega arith;
  acked = 0;
  queue = refl;
  acked_shown = omega arith;
  rest = [];
  prefix = refl;
  level = inl (refl, refl);
  holds = λ i t e. absurd (none-ne-some t e);
  sent = λ m h. elim h [ ];
  acks = λ m h. elim h [ ];
}
