-- ===== src/Coordinator/Crossing.antt =====
-- Two clients, of one onion each, through a coordinator and two servers.
use gjallarhorn.Prelude.{ℕ, ◌≡◌, refl, List, [], ◌∷◌, length, replicate}
use gjallarhorn.Prelude.Bytes.{bytes_equal}
use gjallarhorn.Mixnet.Rounds.Examples.{whole, whole-Covers}
use gjallarhorn.Mixnet.Examples.{plain_box, plain_box-IsBox, conf}
use gjallarhorn.Mixnet.Chain.{run_chain}
use gjallarhorn.Convo.{body_of}
use gjallarhorn.Convo.Exchange.{positions}
use gjallarhorn.Convo.Service.{convo_service}
use gjallarhorn.Convo.Crossing.{
  source, round_settings, net, text, layer, onion_of, keys_of, Trace-first, Trace-second,
}
use gjallarhorn.Coordinator.{OnionBundle, Sent, mix_onions}
use gjallarhorn.Coordinator.Mixing.{joined}
use gjallarhorn.Coordinator.Exchange.{start_of, Placed, Receives, mix_onions-exchanges}

abbrev bundle : ℕ → OnionBundle
bundle t = record { sender = t; onions = onion_of t ∷ [] }

abbrev bundles : List OnionBundle
bundles = bundle 5 ∷ bundle 6 ∷ []

abbrev at_second : Placed bundles 1 0 (onion_of 6)
at_second = record { bundle = bundle 6; there = refl; sent = refl }

abbrev at_first : Placed bundles 0 0 (onion_of 5)
at_first = record { bundle = bundle 5; there = refl; sent = refl }

mix_onions-exchanges_example :
    (sents : List Sent) × (mix_onions
        (run_chain 2 plain_box whole net (conf 1) (67 ∷ []) 3)
        3
        bundles
      ≡ sents)
    × (length sents ≡ 2)
    × Receives plain_box 3 sents at_second.bundle 1 0 (keys_of 6) (body_of (text 5))
    × Receives plain_box 3 sents at_first.bundle 0 0 (keys_of 5) (body_of (text 6))
unfolding convo_service positions bytes_equal joined start_of
mix_onions-exchanges_example =
    mix_onions-exchanges whole whole-Covers plain_box plain_box-IsBox (67 ∷ []) 3 net source
      round_settings refl refl (text 6) (text 5) (replicate 16 1) [] at_second at_first Trace-first
      Trace-second (layer 16 (text 6), refl, (text 6, refl, refl))
      (layer 15 (text 5), refl, (text 5, refl, refl)) refl refl refl refl refl
