-- ===== src/Convo/Crossing.antt =====
-- A batch of two onions through two servers, the second with the conversation service.
use gjallarhorn.Prelude.{
  ℕ, ◌+◌, ◌≡◌, refl, List, [], ◌∷◌, ◌++◌, none, some, if◌then◌else◌, arith, length, get_elem?,
  replicate,
}
use gjallarhorn.Prelude.Bytes.{Bytes, zeros, big_endian, bytes_equal}
use gjallarhorn.Prelude.Maps.{lookup, insert, delete, retain}
use gjallarhorn.Mixnet.Settings.{RoundSettings}
use gjallarhorn.Mixnet.Filter.{msg_key, filter_from, filter_incoming}
use gjallarhorn.Mixnet.Replies.Sealed.{AllSized}
use gjallarhorn.Mixnet.Rounds.Setup.{fresh_state}
use gjallarhorn.Mixnet.Rounds.Examples.{swapper, swapper-IsShuffler, whole, whole-Covers}
use gjallarhorn.Mixnet.Examples.{plain_box, plain_box-IsBox, conf}
use gjallarhorn.Mixnet.Chain.{Stage, Network, run_chain}
use gjallarhorn.Mixnet.Chain.Trace.{Peels, Serves, Trace, arrives, hops}
use gjallarhorn.Mixnet.Chain.Returns.{Replied, chain-Replied}
use gjallarhorn.Convo.{
  body_of, handle_messages, count_accesses, record_access, replies_from, reply_for,
}
use gjallarhorn.Convo.Exchange.{positions}
use gjallarhorn.Convo.Service.{NoiseSource, convo_service}
use gjallarhorn.Convo.Across.{chain-exchanges}

abbrev pub source : NoiseSource
source = record {
  seal_onion = λ settings my_pos m. m;
  singles = 0;
  doubles = 0;
  single = λ i. [];
  double = λ i. [];
  rest = λ i. [];
  bounded = omega arith;
}

abbrev pub round_settings : RoundSettings
round_settings = record {
  service = 67 ∷ [];
  round = 3;
  onion_keys = [];
  raw_service_data = [];
  service_data = none;
}

-- The server at a position of a chain of two.
abbrev pub server : ℕ → Stage
server pos = record {
  service = convo_service source;
  state =
      record (fresh_state (convo_service source) (conf 1 ∷ conf 2 ∷ []) pos (zeros 32) (zeros 32)) {
        settings = some round_settings;
        noise = some [];
      };
  fresh = λ i. zeros 32;
  shuffler = λ n. swapper;
}

abbrev pub net : Network
net c = if bytes_equal c.key (conf 1).key then some (server 0) else some (server 1)

-- A message to dead drop 1 and its two layers, each of a public key, a box and a tag.
abbrev pub text : ℕ → Bytes
text t = replicate 16 1 ++ replicate 256 t

abbrev pub layer : ℕ → Bytes → Bytes
layer key m = replicate 32 key ++ (m ++ replicate 16 key)

abbrev pub onion_of : ℕ → Bytes
onion_of t = layer t (layer (t + 10) (text t))

abbrev crossing : List Bytes
crossing = onion_of 5 ∷ onion_of 6 ∷ []

abbrev pub keys_of : ℕ → List Bytes
keys_of t = replicate 32 t ∷ replicate 32 (t + 10) ∷ []

abbrev inner : List Bytes
inner = layer 16 (text 6) ∷ layer 15 (text 5) ∷ []

Serves-first : Serves plain_box 3 256 1 (server 0) []
unfolding convo_service
Serves-first = record {
  idle = record { both_ways = refl; none_yet = refl; no_jobs = refl; still_on = refl };
  place = refl;
  reply_size = refl;
  made = refl;
}

Serves-last : Serves plain_box 3 256 0 (server 1) []
unfolding convo_service
Serves-last = record {
  idle = record { both_ways = refl; none_yet = refl; no_jobs = refl; still_on = refl };
  place = refl;
  reply_size = refl;
  made = refl;
}

-- The first server swaps the two onions.
pub Trace-first :
    Trace plain_box 3 256 net 1 (conf 1) crossing 1 (keys_of 6) (server 1) (text 6 ∷ text 5 ∷ []) 0
unfolding convo_service filter_incoming filter_from msg_key big_endian lookup insert delete retain
    bytes_equal swapper-IsShuffler
Trace-first =
    hops 0 (conf 1) (conf 2) (server 0) [] crossing 1 1 (replicate 32 6) (replicate 32 16 ∷ [])
      (server 1) (text 6 ∷ text 5 ∷ []) 0
      (record {
        dialled = refl;
        serves = Serves-first;
        small = omega arith;
        onion = onion_of 6;
        sent = refl;
        goes_on = refl;
        shares = refl;
      })
      refl swapper-IsShuffler
      (arrives (conf 2) (server 1) [] inner 0 0 (replicate 32 16) (record {
        dialled = refl;
        serves = Serves-last;
        small = omega arith;
        onion = layer 16 (text 6);
        sent = refl;
        goes_on = refl;
        shares = refl;
      }))

pub Trace-second :
    Trace plain_box 3 256 net 1 (conf 1) crossing 0 (keys_of 5) (server 1) (text 6 ∷ text 5 ∷ []) 1
unfolding convo_service filter_incoming filter_from msg_key big_endian lookup insert delete retain
    bytes_equal swapper-IsShuffler
Trace-second =
    hops 0 (conf 1) (conf 2) (server 0) [] crossing 0 0 (replicate 32 5) (replicate 32 15 ∷ [])
      (server 1) (text 6 ∷ text 5 ∷ []) 1
      (record {
        dialled = refl;
        serves = Serves-first;
        small = omega arith;
        onion = onion_of 5;
        sent = refl;
        goes_on = refl;
        shares = refl;
      })
      refl swapper-IsShuffler
      (arrives (conf 2) (server 1) [] inner 1 1 (replicate 32 15) (record {
        dialled = refl;
        serves = Serves-last;
        small = omega arith;
        onion = layer 15 (text 5);
        sent = refl;
        goes_on = refl;
        shares = refl;
      }))

chain-Replied_example :
    Replied whole whole-Covers plain_box plain_box-IsBox
      (67 ∷ [])
      3
      256
      net
      1
      (conf 1)
      crossing
      1
      (keys_of 6)
      (body_of (text 5))
unfolding convo_service handle_messages count_accesses record_access replies_from reply_for lookup
    insert delete retain bytes_equal
chain-Replied_example =
    chain-Replied whole whole-Covers plain_box plain_box-IsBox (67 ∷ []) 3 256 net
      (body_of (text 5)) Trace-first
      (record {
        settings = round_settings;
        known = refl;
        answers = body_of (text 5) ∷ body_of (text 6) ∷ [];
        handles = refl;
        full = refl;
        at = refl;
        fits = refl;
      })

chain-exchanges_example :
    (rs : List Bytes) × (run_chain 2 plain_box whole net (conf 1) (67 ∷ []) 3 crossing ≡ some rs)
    × (length rs ≡ 2)
    × AllSized 288 rs
    × ((box : Bytes) × (get_elem? rs 1 ≡ some box)
        × Peels plain_box 3 (keys_of 6) box (body_of (text 5)))
    × ((box : Bytes) × (get_elem? rs 0 ≡ some box)
        × Peels plain_box 3 (keys_of 5) box (body_of (text 6)))
unfolding convo_service positions bytes_equal
chain-exchanges_example =
    chain-exchanges whole whole-Covers plain_box plain_box-IsBox (67 ∷ []) 3 net source
      round_settings refl refl (onion_of 6) (onion_of 5) (text 6) (text 5) (replicate 16 1) []
      Trace-first Trace-second refl refl (layer 16 (text 6), refl, (text 6, refl, refl))
      (layer 15 (text 5), refl, (text 5, refl, refl)) refl refl refl refl refl
