-- ===== src/Mixnet/Rounds/Examples.antt =====
-- Runs of the rounds of mix servers, and their theorems at concrete inputs.
use gjallarhorn.Prelude.{
  ℕ, ◌<◌, zero, suc, ◌≡◌, refl, true, false, List, [], ◌∷◌, none, some, arith, length, get_elem?,
  replicate,
}
use gjallarhorn.Prelude.Bytes.{Bytes, zeros, big_endian, bytes_eq}
use gjallarhorn.Prelude.Maps.{lookup, insert, delete, retain}
use gjallarhorn.Mixnet.Settings.{PublicServerConfig}
use gjallarhorn.Mixnet.Filter.{msg_key, filter_from, filter_incoming}
use gjallarhorn.Mixnet.Replies.{reply_msg_size}
use gjallarhorn.Mixnet.Rounds.{responds, Handled, Service, RoundState, OnionsRequest}
use gjallarhorn.Mixnet.Rounds.Setup.{fresh_state}
use gjallarhorn.Mixnet.Rounds.Onions.{receive_onions, decrypt_from, run_jobs}
use gjallarhorn.Mixnet.Rounds.Onions.Positions.{receive_onions-panics}
use gjallarhorn.Mixnet.Rounds.Closing.{World, Shuffler, IsShuffler, mix_round, close_open}
use gjallarhorn.Mixnet.Rounds.Closing.Answers.{Returned, mix_round-Returned}
use gjallarhorn.Mixnet.Rounds.Closing.Again.{close_open-again}
use gjallarhorn.Mixnet.Fetching.{Span, Covers}
use gjallarhorn.Mixnet.Examples.{plain_box, plain_box-IsBox, echo, conf}

-- The shuffler of a batch of two swaps them.
abbrev pub swap : List Bytes → List Bytes
swap [] = []
swap (a ∷ []) = a ∷ []
swap (a ∷ b ∷ []) = b ∷ a ∷ []
swap (a ∷ b ∷ c ∷ more) = a ∷ b ∷ c ∷ more

abbrev pub swapped : ℕ → ℕ
swapped zero = 1
swapped (suc zero) = 0
swapped (suc (suc i)) = suc (suc i)

abbrev pub swapper : Shuffler
swapper = record { shuffle = swap; unshuffle = swap }

pub swap_at :
    (xs : List Bytes) → length xs ≡ 2 → (i : ℕ) → get_elem? (swap xs) (swapped i) ≡ get_elem? xs i
swap_at [] h i = absurd (omega arith)
swap_at (a ∷ []) h i = absurd (omega arith)
swap_at (a ∷ b ∷ []) h zero = refl
swap_at (a ∷ b ∷ []) h (suc zero) = refl
swap_at (a ∷ b ∷ []) h (suc (suc i)) = refl
swap_at (a ∷ b ∷ c ∷ more) h i = absurd (omega arith)

pub unswap_at :
    (xs : List Bytes) → length xs ≡ 2 → (i : ℕ) → get_elem? (swap xs) i ≡ get_elem? xs (swapped i)
unswap_at [] h i = absurd (omega arith)
unswap_at (a ∷ []) h i = absurd (omega arith)
unswap_at (a ∷ b ∷ []) h zero = refl
unswap_at (a ∷ b ∷ []) h (suc zero) = refl
unswap_at (a ∷ b ∷ []) h (suc (suc i)) = refl
unswap_at (a ∷ b ∷ c ∷ more) h i = absurd (omega arith)

pub length-swap : (xs : List Bytes) → length xs ≡ 2 → length (swap xs) ≡ 2
length-swap [] h = h
length-swap (a ∷ []) h = h
length-swap (a ∷ b ∷ []) h = h
length-swap (a ∷ b ∷ c ∷ more) h = h

unfoldable pub swapper-IsShuffler : IsShuffler swapper 2
swapper-IsShuffler = record {
  place = swapped;
  shuffle_at = swap_at;
  shuffle_length = length-swap;
  unshuffle_at = unswap_at;
  unshuffle_length = length-swap;
}

-- The next server gives two replies.
abbrev world : World
world = record {
  box = plain_box;
  fresh = λ i. zeros 32;
  shuffler = λ n. swapper;
  run_bidirectional = λ next name round onions. some (replicate 17 1 ∷ replicate 17 2 ∷ []);
  run_unidirectional = λ next name round onions. some (3 ∷ []);
}

-- A round with one onion, which has been decrypted, and one message of noise.
abbrev first_of : List PublicServerConfig → Handled → RoundState
first_of chain answer =
    record (fresh_state (echo true answer) chain 0 (replicate 32 1) (zeros 32)) {
      settings = some (record {
        service = 67 ∷ [];
        round = 3;
        onion_keys = [];
        raw_service_data = [];
        service_data = none;
      });
      num_incoming = 1;
      incoming = some (replicate 8 5) ∷ [];
      shared_keys = zeros 32 ∷ [];
      accepting_onions = true;
      noise = some (replicate 8 6 ∷ []);
    }

abbrev middle : RoundState
middle = first_of (conf 1 ∷ conf 2 ∷ []) (Handled.replied [])

mix_round-Returned_example :
    (st' : RoundState) × (m : Bytes) × (mix_round world
        (echo true (Handled.replied []))
        (67 ∷ [])
        3
        middle
      ≡ (st', responds []))
    × Returned world plain_box-IsBox
        (echo true (Handled.replied []))
        3
        middle
        st'
        0
        (zeros 32)
        m
        (replicate 17 2)
    × (get_elem? (swap (replicate 8 5 ∷ replicate 8 6 ∷ [])) 1 ≡ some m)
unfolding filter_incoming filter_from msg_key big_endian lookup insert delete retain reply_msg_size
    swapper-IsShuffler
mix_round-Returned_example =
    mix_round-Returned world plain_box-IsBox (echo true (Handled.replied [])) 3 middle refl 0 0
      (zeros 32) (replicate 17 2) refl refl refl (67 ∷ []) (conf 2) (replicate 8 6 ∷ [])
      (replicate 17 1 ∷ replicate 17 2 ∷ []) refl refl refl swapper-IsShuffler refl refl refl

abbrev two_replies : Handled
two_replies = Handled.replied ((4 ∷ []) ∷ (5 ∷ []) ∷ [])

abbrev last_round : RoundState
last_round = first_of (conf 1 ∷ []) two_replies

-- A round with a one-way service.
abbrev one_way : Service
one_way = echo false (Handled.result (2 ∷ []))

abbrev one_way_round : RoundState
one_way_round = record last_round { bidirectional = false }

close_open-again_example :
    close_open world one_way (67 ∷ []) 3 (close_open world one_way (67 ∷ []) 3 one_way_round).0
    ≡ close_open world one_way (67 ∷ []) 3 one_way_round
unfolding close_open run_jobs mix_round filter_incoming filter_from msg_key big_endian lookup insert
    delete retain
close_open-again_example =
    close_open-again world one_way (67 ∷ []) 3 world one_way (67 ∷ []) 3 one_way_round (refl, refl)
      tt

abbrev request : OnionsRequest
request = record { offset = 0; onions = replicate 56 1 ∷ [] }

abbrev wrapping : OnionsRequest
wrapping = record { offset = 4294967295; onions = replicate 56 1 ∷ [] }

receive_onions-panics_example :
    (receive_onions 1 last_round wrapping ≡ responds (record last_round { jobs = wrapping ∷ [] }))
    × (decrypt_from plain_box 3 last_round 4294967295 (replicate 56 1 ∷ []) ≡ none)
receive_onions-panics_example =
    receive_onions-panics plain_box 3 last_round wrapping (replicate 56 1) [] refl refl
      (omega arith) (omega arith) (omega arith) (omega arith) (omega arith) refl

-- One span for everything.
abbrev pub whole : ℕ → ℕ → List Span
whole n size = record { start = 0; count = n } ∷ []

pub whole-Covers : (n size : ℕ) → 0 < size → Covers 0 (whole n size) n
whole-Covers n size h = (refl, omega arith)
