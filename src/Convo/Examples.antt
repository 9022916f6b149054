-- ===== src/Convo/Examples.antt =====
-- Runs of the conversation service, and its theorems at concrete inputs.
use gjallarhorn.Prelude.{
  ℕ, ◌+◌, ◌≡◌, ◌<◌, ◌≤◌, ◌⊎◌, refl, List, [], ◌∷◌, ◌++◌, some, arith, length, drop, replicate, ◌%◌,
}
use gjallarhorn.Prelude.Bytes.{Bytes, bytes_equal, zeros}
use gjallarhorn.Prelude.Maps.{lookup, insert}
use gjallarhorn.Convo.{DeadDropMessage, handle_messages}
use gjallarhorn.Convo.Counts.{nth_accesses, handle_messages-counts}
use gjallarhorn.Convo.Noise.{Generated, made, generate_noise, generate_noise-length}

abbrev message : ℕ → ℕ → Bytes
message drop text = replicate 16 drop ++ (text ∷ [])

-- Drop 1 is accessed by messages 0, 2 and 3, drop 2 by message 1 alone.
abbrev batch : List Bytes
batch = message 1 10 ∷ message 2 20 ∷ message 1 30 ∷ message 1 40 ∷ []

batch_run :
    handle_messages batch
    ≡ (some (30 ∷ []) ∷ some (20 ∷ []) ∷ some (10 ∷ []) ∷ some (10 ∷ []) ∷ [], 1, 1)
unfolding handle_messages lookup insert bytes_equal
batch_run = refl

handle_messages-counts_example :
    ((handle_messages batch).2 ≡ nth_accesses 1 [] batch)
    × ((handle_messages batch).1 + (handle_messages batch).2 ≡ nth_accesses 0 [] batch)
handle_messages-counts_example = handle_messages-counts batch

abbrev sized : DeadDropMessage
sized = record { drop_id = zeros 16; encrypted_message = zeros 256 }

abbrev coin : ℕ → Bytes
coin k = replicate 16 k

generate_noise-length_example :
    ((2 + (3 + 3 % 2) < 4294967296)
      × (noise : List Bytes) × (generate_noise (λ b. 0 ∷ b) 2 3 coin coin coin 3 1 ≡ made noise)
      × (length noise ≡ 2 + (3 + 3 % 2)))
    ⊎ ((4294967296 ≤ 2 + (3 + 3 % 2))
        × (generate_noise (λ b. 0 ∷ b) 2 3 coin coin coin 3 1 ≡ Generated.panics))
generate_noise-length_example =
    generate_noise-length (λ b. 0 ∷ b) 2 3 coin coin coin 3 1 (omega arith) (omega arith)
      (omega arith)
