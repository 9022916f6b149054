-- ===== src/Conversation/Keys.antt =====
-- The keywheel, the round syncer, and the keys' uses: `rollKey`, `roundSyncer`, the nonces of
-- `Seal` and `Open`, and `deadDrop` of cmd/gjallarhorn-client/conversation.go.
pub mod Wheel
pub mod Rounds
use gjallarhorn.Prelude.{
  ℕ, zero, suc, ◌+◌, ◌-◌, ◌*◌, ◌/◌, ◌%◌, ◌≡◌, List, [], ◌∷◌, ◌++◌, Option, none, some, ltb, ◌==◌,
  if◌then◌else◌, length, take, copy, arith,
}
use gjallarhorn.Prelude.Bytes.{Bytes, zeros, u32, put_uint32}

-- What the code calls of Go's crypto packages and of NaCl's secretbox. A key comes last.
pub record Crypto : Type 0 where
  pub sha512_256 : Bytes → Bytes
  pub sha256 : Bytes → Bytes
  pub hmac_sha256 : Bytes → Bytes → Bytes
  pub secretbox_seal : Bytes → Bytes → Bytes → Bytes
  pub secretbox_open : Bytes → Bytes → Bytes → Option Bytes

-- The documented contract of secretbox: the box is 16 bytes longer, and opens under its own
-- nonce and key.
pub record IsSecretbox (x : Crypto) : Type 0 where
  pub seal_length : (m nonce key : Bytes) → length (x.secretbox_seal m nonce key) ≡ length m + 16
  pub open_seal :
      (m nonce key : Bytes) → x.secretbox_open (x.secretbox_seal m nonce key) nonce key ≡ some m

module _ (x : Crypto) where
  -- The loop of `rollKey`: `n` rounds from round `r` on. `r` stays below the target, so the
  -- `uint32` does not wrap.
  unfoldable pub roll_from : ℕ → ℕ → Bytes → Bytes
  roll_from zero r key = key
  roll_from (suc n) r key = roll_from n (r + 1) (x.sha512_256 (put_uint32 r ++ key))

  -- `none` is the nil key: the target round is past.
  unfoldable pub roll_key : Bytes → ℕ → ℕ → Option Bytes
  roll_key key key_round target =
      if ltb target key_round then none else some (roll_from (target - key_round) key_round key)

  -- The nonce of `Seal` (for the peer's name) and of `Open` (for one's own).
  unfoldable pub message_nonce : ℕ → Bytes → Bytes
  message_nonce round name = put_uint32 round ++ copy (zeros 20) (take 16 (x.sha256 name))

  -- `[]byte("DeadDrop")`, then the round.
  unfoldable pub dead_drop : ℕ → Bytes → Bytes
  dead_drop round round_key = copy (zeros 16) (
      x.hmac_sha256 round_key
        ((0x44 ∷ 0x65 ∷ 0x61 ∷ 0x64 ∷ 0x44 ∷ 0x72 ∷ 0x6f ∷ 0x70 ∷ []) ++ put_uint32 round))

pub record RoundSyncer : Type 0 where
  pub rounding_increment : ℕ

-- `round / c * c` and the parity of the epoch. (`c` is not 0: Go would panic.)
unfoldable pub epoch_start : RoundSyncer → ℕ → ℕ × ℕ
epoch_start rs round = let c = rs.rounding_increment in (round / c * c, round / c % 2)

unfoldable pub outgoing_call_convo_round : RoundSyncer → ℕ → ℕ × ℕ
unfolding epoch_start
outgoing_call_convo_round rs latest_round = epoch_start rs latest_round

-- The subtraction is of `uint32`.
unfoldable pub incoming_call_convo_round : RoundSyncer → ℕ → ℕ → ℕ
unfolding epoch_start
incoming_call_convo_round rs latest_round intent =
    let (start, current) = epoch_start rs latest_round in
    if current == intent then start else u32 (start + 4294967296 - rs.rounding_increment)

abbrev pub std_round_syncer : RoundSyncer
std_round_syncer = record { rounding_increment = 10000 }
