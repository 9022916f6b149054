-- ===== src/Conversation/Keys/Wheel.antt =====
-- The keywheel: rolling in steps and rolling at once give one key.
use gjallarhorn.Prelude.{ℕ, zero, suc, ◌+◌, ◌-◌, ◌≤◌, ◌<◌, ◌≡◌, ◌↔◌, ◌++◌, none, some, arith}
use gjallarhorn.Prelude.Bytes.{Bytes, put_uint32}
use native.Mathlib.Nat.{zero-add, add-zero, suc-add}
use gjallarhorn.Conversation.Keys.{Crypto, roll_from, roll_key}

module _ (x : Crypto) where
  roll_from-add :
      (m n r : ℕ) (key : Bytes)
      → roll_from x (m + n) r key ≡ roll_from x n (r + m) (roll_from x m r key)
  unfolding roll_from
  roll_from-add zero n r key = rw (zero-add, add-zero)
  roll_from-add (suc m) n r key =
      let e : r + 1 + m ≡ r + suc m = omega arith in
      rw (suc-add, ← e) (roll_from-add m n (r + 1) (x.sha512_256 (put_uint32 r ++ key)))

  -- A client that rolls its key from `a` to `b` and later from `b` to `c` has the key of one that
  -- rolls from `a` to `c` at once, so the ends of a conversation need not take part in the same
  -- rounds.
  pub roll_key_compose :
      (key mid : Bytes) (a b c : ℕ)
      → roll_key x key a b ≡ some mid
      → b ≤ c
      → roll_key x mid b c ≡ roll_key x key a c
  unfolding roll_key
  roll_key_compose key mid a b c h le = ground (arith, roll_from-add (b - a) (c - b) a key, total)
    where
      total : a ≤ b → (b - a + (c - b) ≡ c - a) × (a + (b - a) ≡ b)
      total p = omega arith

  -- There is no key for a round before the key's own, and one for every other.
  pub roll_key-none :
      (key : Bytes) (key_round target : ℕ)
      → (roll_key x key key_round target ≡ none) ↔ (target < key_round)
  unfolding roll_key
  roll_key-none key key_round target = ground arith
