-- ===== src/Conversation/Delivery.antt =====
-- Two clients in a conversation, over a network that loses, repeats and reorders messages: the
-- locked parts of `QueueTextMessage`, `NextMessage` and `Reply` of
-- cmd/gjallarhorn-client/conversation.go as steps, with each message passing through `Marshal` and
-- `Unmarshal`. Counters are taken not to wrap: a step that would wrap one is not a step here.
pub mod Invariant
pub mod Order
pub mod Bob
pub mod Alice
use mathlib.Core.List.{Memᴰ}
use gjallarhorn.Prelude.{ℕ, ◌+◌, ◌<◌, ◌≡◌, Bool, List, [], ◌∷◌, ◌++◌, some}
use gjallarhorn.Prelude.Bytes.{Bytes}
use gjallarhorn.Conversation.Message.{ConvoMessage, marshal, unmarshal}
use gjallarhorn.Conversation.{
  Conversation, KeywheelStart, init, activate, queue_text_message, pick_outgoing, accept,
}

-- `typed` is what Alice has queued, `shown` is what Bob's `Reply` has displayed, both oldest first.
pub record Link : Type 0 where
  pub alice : Conversation
  pub bob : Conversation
  pub from_alice : List ConvoMessage
  pub from_bob : List ConvoMessage
  pub typed : List Bytes
  pub shown : List Bytes

unfoldable pub start : Bytes → Bytes → Link
start alice bob = record {
  alice = init bob alice;
  bob = init alice bob;
  from_alice = [];
  from_bob = [];
  typed = [];
  shown = [];
}

abbrev pub hears : ConvoMessage → Link → Link
hears m s = record s { bob = (accept m s.bob).0; shown = s.shown ++ (accept m s.bob).1 }

pub data Step : Link → Link → Type 0 where
  alice_types :
      (s : Link) (view : Bool) (text : Bytes)
      → s.alice.seq_base + (s.alice.relative_seq + 1) < 4294967296
      → Step s (record s {
        alice = queue_text_message view text s.alice;
        typed = s.typed ++ (text ∷ []);
      })
  alice_sends :
      (s : Link) (round : ℕ) (c : Conversation) (m : ConvoMessage)
      → pick_outgoing round s.alice ≡ some (c, m)
      → round + 1 + s.alice.relative_seq < 4294967296
      → Step s (record s { alice = c; from_alice = m ∷ s.from_alice })
  alice_hears :
      (s : Link) (sent m : ConvoMessage)
      → Memᴰ sent s.from_bob
      → unmarshal (marshal sent) ≡ some m
      → Step s (record s { alice = (accept m s.alice).0 })
  alice_activates :
      (s : Link) (wheel : KeywheelStart) → Step s (record s { alice = activate wheel s.alice })
  bob_types :
      (s : Link) (view : Bool) (text : Bytes)
      → Step s (record s { bob = queue_text_message view text s.bob })
  bob_sends :
      (s : Link) (round : ℕ) (c : Conversation) (m : ConvoMessage)
      → pick_outgoing round s.bob ≡ some (c, m)
      → Step s (record s { bob = c; from_bob = m ∷ s.from_bob })
  bob_hears :
      (s : Link) (sent m : ConvoMessage)
      → Memᴰ sent s.from_alice
      → unmarshal (marshal sent) ≡ some m
      → Step s (hears m s)
  bob_activates :
      (s : Link) (wheel : KeywheelStart) → Step s (record s { bob = activate wheel s.bob })

pub data Reach (s : Link) : Link → Type 0 where
  here : Reach s s
  next : {t u : Link} → Reach s t → Step t u → Reach s u
