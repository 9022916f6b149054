-- ===== src/Conversation/Message/RoundTrip.antt =====
-- What `ConvoMessage.Marshal` writes, `Unmarshal` reads back.
use gjallarhorn.Prelude.{
  ℕ, zero, ==_iff, length-drop, drop-drop, take-append-drop, suc, ◌≤◌, ◌<◌, ◌≡◌, refl, ap, ◌∙◌,
  Bool, true, false, [], ◌∷◌, some, arith, length, take, drop, length-copy, copy_all, ◌==◌,
  Bool-cases, inl, inr, if◌then◌else◌,
}
use mathlib.Core.Option.{none-ne-some}
use gjallarhorn.Prelude.Bytes.{
  Bytes, AllBytes, u32, zeros, length-zeros, put_uint32, big_endian, uint32-put_uint32,
}
use gjallarhorn.Conversation.Message.{ConvoMessage, marshal, unmarshal, pad_text, flag_byte}

pub length-pad_text : (text : Bytes) → length (pad_text text) ≡ 231
unfolding pad_text
length-pad_text text = length-copy (zeros 231) text ∙ length-zeros 231

pub pad_text_full : (text : Bytes) → length text ≡ 231 → pad_text text ≡ text
unfolding pad_text
pad_text_full text h = copy_all (zeros 231) text (omega (arith, length-zeros 231))

pub pad_text_idem : (text : Bytes) → pad_text (pad_text text) ≡ pad_text text
pad_text_idem text = pad_text_full (pad_text text) (length-pad_text text)

-- A marshalled message has exactly the size of a message body.
pub length-marshal : (cm : ConvoMessage) → length (marshal cm) ≡ 240
unfolding marshal put_uint32
length-marshal cm = omega (arith, length-pad_text cm.user_text)

flag_read : (b : Bool) → (if flag_byte b == 0 then false else true) ≡ b
flag_read true = refl
flag_read false = refl

seq_read : (cm : ConvoMessage) → big_endian 0 (take 4 (marshal cm)) ≡ u32 cm.seq
unfolding marshal put_uint32
seq_read cm = uint32-put_uint32 cm.seq

ack_read : (cm : ConvoMessage) → big_endian 0 (take 4 (drop 4 (marshal cm))) ≡ u32 cm.ack
unfolding marshal put_uint32
ack_read cm = uint32-put_uint32 cm.ack

text_read : (cm : ConvoMessage) → drop 8 (marshal cm) ≡ flag_byte cm.lowest ∷ pad_text cm.user_text
unfolding marshal put_uint32
text_read cm = refl

-- A message as the peer reads it.
abbrev pub over_wire : ConvoMessage → ConvoMessage
over_wire cm = record {
  seq = u32 cm.seq;
  ack = u32 cm.ack;
  lowest = cm.lowest;
  user_text = pad_text cm.user_text;
}

-- Unmarshalling a marshalled message always succeeds and gives back its flag, its numbers modulo
-- 2^32, and its text padded or cut to its 231 bytes.
pub unmarshal-marshal : (cm : ConvoMessage) → unmarshal (marshal cm) ≡ some (over_wire cm)
unfolding unmarshal
unmarshal-marshal cm =
    rw (length-marshal cm) (rw (seq_read cm, ack_read cm, text_read cm) (rw (flag_read cm.lowest)))

-- A message whose numbers are of 32 bits and whose text has 231 bytes is read back as it was.
pub unmarshal-marshal_exact :
    (cm : ConvoMessage)
    → cm.seq < 4294967296
    → cm.ack < 4294967296
    → length cm.user_text ≡ 231
    → unmarshal (marshal cm) ≡ some cm
unmarshal-marshal_exact cm hs ha ht =
    unmarshal-marshal cm ∙ ground (arith, pad_text_full cm.user_text)

put_take : (m : Bytes) → AllBytes m → 4 ≤ length m → put_uint32 (big_endian 0 (take 4 m)) ≡ take 4 m
unfolding put_uint32 big_endian
put_take [] h l = absurd (omega arith)
put_take (a ∷ []) h l = absurd (omega arith)
put_take (a ∷ b ∷ []) h l = absurd (omega arith)
put_take (a ∷ b ∷ c ∷ []) h l = absurd (omega arith)
put_take (a ∷ b ∷ c ∷ d ∷ m) h l = ground arith

AllBytes-drop : (n : ℕ) (m : Bytes) → AllBytes m → AllBytes (drop n m)
AllBytes-drop zero m h = h
AllBytes-drop (suc n) [] h = tt
AllBytes-drop (suc n) (b ∷ m) h = AllBytes-drop n m h.1

unmarshal_parts :
    (msg : Bytes) (cm : ConvoMessage) (flag : ℕ) (text : Bytes)
    → drop 8 msg ≡ flag ∷ text
    → unmarshal msg ≡ some cm
    → (length msg ≡ 240)
      × (cm ≡ record {
        seq = big_endian 0 (take 4 msg);
        ack = big_endian 0 (take 4 (drop 4 msg));
        lowest = if flag == 0 then false else true;
        user_text = text;
      })
unfolding unmarshal
unmarshal_parts msg cm flag text hd h = elim (Bool-cases (length msg == 240)) [
  | inl fits ↦ let read = rw (fits, hd) at h in ((==_iff _ 240).0 fits, cc read)
  | inr other ↦ absurd (none-ne-some _ (rw other at h))
]

flag_write : (flag : ℕ) → flag ≤ 1 → flag_byte (if flag == 0 then false else true) ≡ flag
flag_write zero h = refl
flag_write (suc zero) h = refl
flag_write (suc (suc n)) h = absurd (omega arith)

-- Every body of 240 bytes whose flag byte is 0 or 1 is what `Marshal` writes of the message that
-- `Unmarshal` reads from it.
pub marshal-unmarshal :
    (msg : Bytes) (cm : ConvoMessage) (flag : ℕ) (text : Bytes)
    → AllBytes msg
    → drop 8 msg ≡ flag ∷ text
    → flag ≤ 1
    → unmarshal msg ≡ some cm
    → marshal cm ≡ msg
unfolding marshal
marshal-unmarshal msg cm flag text hb hd hf h =
    let (len, shape) = unmarshal_parts msg cm flag text hd h in
    rw shape (
      rw (put_take msg hb (omega arith)) (
        rw (put_take (drop 4 msg) (AllBytes-drop 4 msg hb) (omega (arith, length-drop 4 msg))) (
          rw
            (
              flag_write flag hf,
              pad_text_full text (omega (arith, ap length hd, length-drop 8 msg)),
            )
            (rw (← hd, ← drop-drop 4 4 msg)
              (rw (take-append-drop 4 (drop 4 msg)) (take-append-drop 4 msg))))))
