-- ===== src/Convo/Wire.antt =====
-- `DeadDropMessage.Marshal` and `Unmarshal` of convo/mixer.go.
use gjallarhorn.Prelude.{
  ℕ, zero, suc, ◌≡◌, refl, ap, [], ◌∷◌, ◌++◌, Option, none, some, ◌==◌, if◌then◌else◌, arith,
  length, take, drop, copy, copy_all, length-append, length-take, length-drop,
}
use gjallarhorn.Prelude.Bytes.{Bytes, zeros, length-zeros}
use gjallarhorn.Convo.{DeadDropMessage, drop_of, body_of}

-- `sizeDeadDropMessage`: 16 bytes and 256 bytes, with nothing between.
abbrev pub size_dead_drop_message : ℕ
size_dead_drop_message = 272

abbrev patch : ℕ → Bytes → Bytes → Bytes
patch at dst src = take at dst ++ copy (drop at dst) src

-- `copy(data[:16], …)` and `copy(data[16:], …)` into 272 zero bytes.
unfoldable pub marshal_drop : DeadDropMessage → Bytes
marshal_drop m =
    let data0 = zeros size_dead_drop_message in
    let data1 = copy (take 16 data0) m.drop_id ++ drop 16 data0 in
    patch 16 data1 m.encrypted_message

-- `none` is the error of a wrong size.
unfoldable pub unmarshal_drop : Bytes → Option DeadDropMessage
unmarshal_drop bs =
    if length bs == size_dead_drop_message
    then some (record {
      drop_id = copy (zeros 16) (take 16 bs);
      encrypted_message = copy (zeros 256) (drop 16 bs);
    })
    else none

-- The two fields are arrays of 16 and 256 bytes.
pub record IsSized (m : DeadDropMessage) : Type 0 where
  pub id_size : length m.drop_id ≡ 16
  pub box_size : length m.encrypted_message ≡ 256

take-append_exact :
    (n : ℕ) (xs ys : Bytes) → length xs ≡ n → (take n (xs ++ ys) ≡ xs) × (drop n (xs ++ ys) ≡ ys)
take-append_exact zero [] ys h = (refl, refl)
take-append_exact zero (x ∷ xs) ys h = absurd (omega arith)
take-append_exact (suc n) [] ys h = absurd (omega arith)
take-append_exact (suc n) (x ∷ xs) ys h =
    let (t, d) = take-append_exact n xs ys (omega arith) in (ap (◌∷◌ x) t, d)

take_all : (n : ℕ) (xs : Bytes) → length xs ≡ n → take n xs ≡ xs
take_all zero [] h = refl
take_all zero (x ∷ xs) h = absurd (omega arith)
take_all (suc n) [] h = refl
take_all (suc n) (x ∷ xs) h = ap (◌∷◌ x) (take_all n xs (omega arith))

-- The bytes of a message are its drop, then its box.
marshal_drop_lem :
    (m : DeadDropMessage) → IsSized m → marshal_drop m ≡ m.drop_id ++ m.encrypted_message
unfolding marshal_drop
marshal_drop_lem m s =
    let blank = length-zeros 272 in
    let (t, d) = take-append_exact 16 m.drop_id (drop 16 (zeros 272)) s.id_size in
    rw
      (copy_all (take 16 (zeros 272)) m.drop_id
        (omega (arith, s.id_size, length-take 16 (zeros 272), blank)))
      (rw (t, d)
        (ap (◌++◌ m.drop_id) (
          copy_all (drop 16 (zeros 272)) m.encrypted_message
            (omega (arith, s.box_size, length-drop 16 (zeros 272), blank)))))

-- A message of the right sizes is read back as it was, and the last server finds its drop and its
-- box where `Marshal` has put them.
pub unmarshal_drop-marshal_drop :
    (m : DeadDropMessage)
    → IsSized m
    → (unmarshal_drop (marshal_drop m) ≡ some m)
      × (drop_of (marshal_drop m) ≡ m.drop_id)
      × (body_of (marshal_drop m) ≡ m.encrypted_message)
unfolding unmarshal_drop
unmarshal_drop-marshal_drop m s =
    let (t, d) = take-append_exact 16 m.drop_id m.encrypted_message s.id_size in
    let size : length (m.drop_id ++ m.encrypted_message) ≡ 272 =
      omega (arith, length-append m.drop_id m.encrypted_message, s.id_size, s.box_size) in
    let id_copied = copy_all (zeros 16) m.drop_id (omega (arith, s.id_size, length-zeros 16)) in
    let box_copied =
      copy_all (zeros 256) m.encrypted_message (omega (arith, s.box_size, length-zeros 256)) in
    rw (marshal_drop_lem m s)
      (rw size (rw (t, d) (rw (id_copied, box_copied))), t, rw d (take_all 256 _ s.box_size))
