-- ===== src/Conversation/Message.antt =====
-- The plaintext of a conversation round: `ConvoMessage`, `Marshal` and `Unmarshal` of
-- cmd/gjallarhorn-client/conversation.go.
pub mod RoundTrip
use gjallarhorn.Prelude.{
  ℕ, ◌+◌, ◌-◌, ◌≡◌, Bool, true, false, List, [], ◌∷◌, ◌++◌, Option, none, some, ◌==◌, if◌then◌else◌,
  length, take, drop, copy,
}
use gjallarhorn.Prelude.Bytes.{Bytes, zeros, put_uint32, big_endian}

-- `convo.SizeMessageBody` of convo/mixer.go.
abbrev pub size_message_body : ℕ
size_message_body = 240

abbrev pub size_user_text : ℕ
size_user_text = size_message_body - 4 - 4 - 1

pub record ConvoMessage : Type 0 where
  pub seq : ℕ
  pub ack : ℕ
  pub lowest : Bool
  pub user_text : Bytes

-- `copy(msg[9:], cm.UserText)` into zeroed bytes cuts a long text and pads a short one.
unfoldable pub pad_text : Bytes → Bytes
pad_text text = copy (zeros size_user_text) text

abbrev flag_byte : Bool → ℕ
flag_byte true = 1
flag_byte false = 0

unfoldable pub marshal : ConvoMessage → Bytes
marshal cm =
    put_uint32 cm.seq ++ (put_uint32 cm.ack ++ (flag_byte cm.lowest ∷ pad_text cm.user_text))

-- `msg[8]` and what follows. The empty case is not reached: `Unmarshal` has checked the length.
abbrev with_flag : ℕ → ℕ → Bytes → Option ConvoMessage
with_flag seq ack [] = none
with_flag seq ack (flag ∷ text) =
    some (record {
      seq = seq;
      ack = ack;
      lowest = if flag == 0 then false else true;
      user_text = text;
    })

-- `none` is the error of a bad length.
unfoldable pub unmarshal : Bytes → Option ConvoMessage
unmarshal msg =
    if length msg == size_message_body
    then with_flag (big_endian 0 (take 4 msg)) (big_endian 0 (take 4 (drop 4 msg))) (drop 8 msg)
    else none
