-- ===== src/Mixnet/Filter.antt =====
-- `filterIncoming` of mixnet/mixnet.go: the decrypted messages that go on, and for each onion that
-- came in the index of its message among them.
pub mod Index
pub mod Distinct
pub mod Filtered
use gjallarhorn.Prelude.{
  ℕ, ◌+◌, ◌-◌, Bool, true, false, List, [], ◌∷◌, ◌++◌, Option, none, some, if◌then◌else◌, length,
  drop, nat_eq,
}
use gjallarhorn.Prelude.Bytes.{Bytes, big_endian}
use gjallarhorn.Prelude.Maps.{Map, lookup, insert}

-- `binary.BigEndian.Uint64(msg[len(msg)-8:])`. A message that has been decrypted is longer than 8
-- bytes in every service.
unfoldable pub msg_key : Bytes → ℕ
msg_key msg = big_endian 0 (drop (length msg - 8) msg)

-- A missing key of a `map[uint64]bool` reads as false.
abbrev pub is_seen : ℕ → Map ℕ Bool → Bool
is_seen k seen = elim (lookup k seen) [ none ↦ false | some b ↦ b ]

-- The loop, with the messages and indices so far; -1 is `none`, as is a nil message.
unfoldable pub filter_from :
    List (Option Bytes) → Map ℕ Bool → List Bytes → List Bytes × List (Option ℕ)
filter_from [] seen valid = (valid, [])
filter_from (none ∷ msgs) seen valid =
    let (valid', index) = filter_from msgs seen valid in (valid', none ∷ index)
filter_from (some msg ∷ msgs) seen valid =
    let k = msg_key msg in
    let again = is_seen k seen in
    let (valid', index) =
      filter_from msgs (if again then seen else insert k true seen)
        (if again then valid else valid ++ (msg ∷ [])) in
    (valid', (if again then none else some (length valid)) ∷ index)

unfoldable pub filter_incoming : List (Option Bytes) → List Bytes × List (Option ℕ)
unfolding filter_from
filter_incoming incoming = filter_from incoming [] []
