-- ===== src/Conversation/Delivery/Order.antt =====
-- What Bob sees of what Alice types.
use gjallarhorn.Prelude.{◌≡◌, List, ◌++◌, map}
use gjallarhorn.Prelude.Bytes.{Bytes}
use gjallarhorn.Conversation.Message.{pad_text}
use gjallarhorn.Conversation.Delivery.{
  Link, Step, Reach, start, alice_types, alice_sends, alice_hears, alice_activates, bob_types,
  bob_sends, bob_hears, bob_activates, here, next,
}
use gjallarhorn.Conversation.Delivery.Invariant.{Inv, start-Inv}
use gjallarhorn.Conversation.Delivery.Alice.{
  alice_types-Inv, alice_sends-Inv, alice_hears-Inv, alice_activates-Inv,
}
use gjallarhorn.Conversation.Delivery.Bob.{
  bob_types-Inv, bob_sends-Inv, bob_hears-Inv, bob_activates-Inv,
}

Step-Inv : {s t : Link} → Step s t → Inv s → Inv t
Step-Inv (alice_types s view text fit) v = alice_types-Inv s view text fit v
Step-Inv (alice_sends s round c m e room) v = alice_sends-Inv s round c m e room v
Step-Inv (alice_hears s sent m mem e) v = alice_hears-Inv s sent m mem e v
Step-Inv (alice_activates s wheel) v = alice_activates-Inv s wheel v
Step-Inv (bob_types s view text) v = bob_types-Inv s view text v
Step-Inv (bob_sends s round c m e) v = bob_sends-Inv s round c m e v
Step-Inv (bob_hears s sent m mem e) v = bob_hears-Inv s sent m mem e v
Step-Inv (bob_activates s wheel) v = bob_activates-Inv s wheel v

pub Reach-Inv : {s t : Link} → Reach s t → Inv s → Inv t
Reach-Inv here v = v
Reach-Inv (next r st) v = Step-Inv st (Reach-Inv r v)

-- Whatever the network loses, repeats or reorders, what Bob's client has displayed is a prefix of
-- what Alice has typed, each text once and in order, padded or cut to 231 bytes. The counters of
-- the run do not wrap.
pub delivered_in_order :
    (alice bob : Bytes) (s : Link)
    → Reach (start alice bob) s
    → (rest : List Bytes) × (map pad_text s.typed ≡ s.shown ++ rest)
delivered_in_order alice bob s r = let v = Reach-Inv r (start-Inv alice bob) in (v.rest, v.prefix)
