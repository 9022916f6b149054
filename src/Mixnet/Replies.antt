-- ===== src/Mixnet/Replies.antt =====
-- The replies on their way back: `encryptReplies`, the slice of `GetOnions`, and the nonces of
-- mixnet/mixnet.go.
pub mod Sealed
pub mod Slices
use gjallarhorn.Prelude.{
  ℕ, zero, suc, ◌+◌, ◌-◌, ◌*◌, ◌≤◌, ◌≡◌, Bool, true, false, List, [], ◌∷◌, ◌++◌, Option, none, some,
  ltb, ◌==◌, if◌then◌else◌, length, get_elem?, take, drop,
}
use gjallarhorn.Prelude.Bytes.{Bytes, zeros, u32, put_uint32}

-- What the code calls of NaCl's box; the private key stands behind the public one.
pub record Box : Type 0 where
  pub precompute : Bytes → Bytes → Bytes
  pub seal_after : Bytes → Bytes → Bytes → Bytes
  pub open_after : Bytes → Bytes → Bytes → Option Bytes
  pub open_box : Bytes → Bytes → Bytes → Bytes → Option Bytes

-- The documented contract: 16 bytes of overhead, and a box opens under its nonce and key.
pub record IsBox (x : Box) : Type 0 where
  pub seal_length : (m nonce key : Bytes) → length (x.seal_after m nonce key) ≡ length m + 16
  pub open_seal : (m nonce key : Bytes) → x.open_after (x.seal_after m nonce key) nonce key ≡ some m

unfoldable pub forward_nonce : ℕ → Bytes
forward_nonce round = put_uint32 round ++ (0 ∷ zeros 19)

unfoldable pub backward_nonce : ℕ → Bytes
backward_nonce round = put_uint32 round ++ (1 ∷ zeros 19)

-- `replyMsgSize`: each later server adds a box.
unfoldable pub reply_msg_size : ℕ → ℕ → ℕ → ℕ
reply_msg_size chain_length my_pos size_reply = (chain_length - my_pos - 1) * 16 + size_reply

-- A message of the wrong size is replaced by zeros under a fresh key.
abbrev pub seal_sized : Box → Bytes → ℕ → Bytes → Bytes → Bytes → Bytes
seal_sized x nonce size fresh msg key =
    if length msg == size then x.seal_after msg nonce key else x.seal_after (zeros size) nonce fresh

abbrev pub seal_found : Box → Bytes → ℕ → Bytes → Option Bytes → Option Bytes → Option Bytes
seal_found x nonce size fresh none key = none
seal_found x nonce size fresh (some msg) none = none
seal_found x nonce size fresh (some msg) (some key) = some (seal_sized x nonce size fresh msg key)

-- One round of the loop; `none` is the panic of an index out of range. An onion without an index
-- has no message, whose length 0 is not the size of a reply.
unfoldable pub seal_reply :
    Box → Bytes → ℕ → (ℕ → Bytes) → List Bytes → List Bytes → ℕ → Option ℕ → Option Bytes
seal_reply x nonce size fresh replies keys i none = some (x.seal_after (zeros size) nonce (fresh i))
seal_reply x nonce size fresh replies keys i (some v) =
    seal_found x nonce size (fresh i) (get_elem? replies v) (get_elem? keys i)

-- The parallel loop from onion `i` on: each round writes its own reply.
unfoldable pub encrypt_from :
    Box
    → Bytes
    → ℕ
    → (ℕ → Bytes)
    → List Bytes
    → List Bytes
    → ℕ
    → List (Option ℕ)
    → Option (List Bytes)
unfolding seal_reply
encrypt_from x nonce size fresh replies keys i [] = some []
encrypt_from x nonce size fresh replies keys i (ix ∷ index) =
    let rest = encrypt_from x nonce size fresh replies keys (i + 1) index in
    elim (seal_reply x nonce size fresh replies keys i ix) [
      | none ↦ none
      | some r ↦ elim rest [ none ↦ none | some rs ↦ some (r ∷ rs) ]
    ]

unfoldable pub encrypt_replies :
    Box → ℕ → ℕ → (ℕ → Bytes) → List Bytes → List Bytes → List (Option ℕ) → Option (List Bytes)
unfolding encrypt_from backward_nonce
encrypt_replies x round size fresh replies keys index =
    encrypt_from x (backward_nonce round) size fresh replies keys 0 index

pub data Slice : Type 0 where
  refused : Slice
  panics : Slice
  onions : List Bytes → Slice

-- The check of `GetOnions` and the slice behind it: `req.Offset+req.Count` is of `uint32`, and a
-- slice whose bounds fall is a panic.
unfoldable pub get_slice : ℕ → ℕ → List Bytes → Slice
get_slice offset count replies =
    let end = u32 (offset + count) in
    if ltb (u32 (length replies)) end
    then refused
    else if ltb end offset
    then panics
    else onions (take (end - offset) (drop offset replies))
