-- ===== src/Mixnet/Settings/RoundTrip.antt =====
-- Settings survive the way to a mix server.
use gjallarhorn.Prelude.{
  ℕ, zero, suc, ◌≡◌, refl, ap, false, List, [], ◌∷◌, none, some, ltb, arith, length, take,
}
use gjallarhorn.Prelude.Bytes.{Bytes}
use gjallarhorn.Mixnet.Settings.{
  RoundSettings, settings_proto, settings_from_proto, read_keys, read_key,
}

-- Every key has 32 bytes.
abbrev pub AllKeys : List Bytes → Type 0
AllKeys [] = Unit {0}
AllKeys (k ∷ ks) = (length k ≡ 32) × AllKeys ks

take_whole : (n : ℕ) (xs : Bytes) → length xs ≡ n → take n xs ≡ xs
take_whole zero [] h = refl
take_whole zero (x ∷ xs) h = absurd (omega arith)
take_whole (suc n) [] h = refl
take_whole (suc n) (x ∷ xs) h = ap (◌∷◌ x) (take_whole n xs (omega arith))

read_keys_whole : (ks : List Bytes) → AllKeys ks → read_keys ks ≡ some ks
unfolding read_keys
read_keys_whole [] h = refl
read_keys_whole (k ∷ ks) h =
    let long : ltb (length k) 32 ≡ false = ground arith in
    rw (read_keys, read_key, long, read_keys_whole ks h.1) (rw (take_whole 32 k h.0))

-- A mix server reads the settings that the coordinator sent, without the parsed service data, if
-- every onion key has its 32 bytes.
pub settings_from_proto-settings_proto :
    (s : RoundSettings)
    → AllKeys s.onion_keys
    → settings_from_proto (settings_proto s) ≡ some (record s { service_data = none })
unfolding settings_proto settings_from_proto
settings_from_proto-settings_proto s h = rw (settings_from_proto, read_keys_whole s.onion_keys h)
