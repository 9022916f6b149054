-- ===== src/Mixnet/Starting/Examples.antt =====
-- A round at a chain of two servers.
use gjallarhorn.Prelude.{ℕ, ◌≡◌, refl, ◌+◌, true, List, [], ◌∷◌, some, map, replicate}
use gjallarhorn.Prelude.Bytes.{Bytes, zeros, bytes_equal}
use gjallarhorn.Prelude.Maps.{lookup}
use gjallarhorn.Mixnet.Settings.{config_from_proto, settings_proto}
use gjallarhorn.Mixnet.Examples.{echo, conf}
use gjallarhorn.Mixnet.Rounds.{responds, Handled, Server, certificates, auth, same_round, get_round}
use gjallarhorn.Mixnet.Rounds.Setup.{find_from, fresh_state, start_round, set_round_settings}
use gjallarhorn.Mixnet.Starting.Racing.{start_round-signs_again}
use gjallarhorn.Mixnet.Starting.{Node, new_round_at, settings_for}
use gjallarhorn.Mixnet.Starting.Started.{IsReady}
use gjallarhorn.Mixnet.Starting.Signed.{AllSigned, new_round_at-AllSigned}

-- The server whose signing key is `k` everywhere makes the onion key that is `k + 10` everywhere.
abbrev node : ℕ → Node
node k = record {
  config = conf k;
  server = record {
    signing_public = replicate 32 k;
    coordinator_key = 8 ∷ [];
    services = (67 ∷ [], echo true (Handled.replied [])) ∷ [];
    rounds = [];
  };
  peer = certificates (some (8 ∷ []) ∷ []);
  public = replicate 32 (10 + k);
  private = zeros 32;
  sign = λ s. k ∷ [];
}

abbrev two : List Node
two = node 2 ∷ node 3 ∷ []

two_first : IsReady (67 ∷ []) 3 [] (map (λ (n : Node). n.config) two) 0 (node 2)
unfolding auth bytes_equal lookup get_round same_round find_from config_from_proto
two_first = record {
  lets_in = refl;
  service = echo true (Handled.replied []);
  knows = refl;
  parsed = [];
  parses = refl;
  none_yet = refl;
  place = refl;
  key_size = refl;
}

two_second : IsReady (67 ∷ []) 3 [] (map (λ (n : Node). n.config) two) 1 (node 3)
unfolding auth bytes_equal lookup get_round same_round find_from config_from_proto
two_second = record {
  lets_in = refl;
  service = echo true (Handled.replied []);
  knows = refl;
  parsed = [];
  parses = refl;
  none_yet = refl;
  place = refl;
  key_size = refl;
}

new_round_at-AllSigned_example :
    (nodes : List Node) × (sigs : List Bytes) × (new_round_at (67 ∷ []) 3 [] two
      ≡ (nodes, responds sigs))
    × AllSigned (67 ∷ []) 3 [] (replicate 32 12 ∷ replicate 32 13 ∷ []) 0 nodes sigs
    × (map (λ (n : Node). n.sign) nodes ≡ map (λ (n : Node). n.sign) two)
new_round_at-AllSigned_example =
    new_round_at-AllSigned (67 ∷ []) 3 [] two (two_first, (two_second, tt))

-- A server that has signed settings with another key for its round, and whose first `NewRound` goes
-- on then.
abbrev overtaken : Node
overtaken = record (node 2) {
  server = record (node 2).server {
    rounds =
        (
          (67 ∷ [], 3),
          record (fresh_state (echo true (Handled.replied [])) (conf 2 ∷ []) 0 (replicate 32 9)
              (zeros 32)) { settings_signature = some (2 ∷ []) },
        )
        ∷ [];
  };
}

start_round-signs_again_example :
    (mid : Server) × (srv : Server) × (start_round overtaken.server
        (echo true (Handled.replied []))
        (67 ∷ [])
        3
        (conf 2 ∷ [])
        (replicate 32 12)
        (zeros 32)
        (some (some 0))
      ≡ (mid, responds (replicate 32 12)))
    × (set_round_settings
          (λ s. 2 ∷ [])
          mid
          overtaken.peer
          (settings_proto (settings_for (67 ∷ []) 3 [] (replicate 32 12 ∷ [])))
        ≡ (srv, responds (2 ∷ [])))
unfolding auth bytes_equal lookup get_round same_round
start_round-signs_again_example =
    start_round-signs_again (67 ∷ []) 3 [] (replicate 32 12 ∷ []) (conf 2 ∷ []) overtaken
      (echo true (Handled.replied [])) 0 [] (2 ∷ [])
      (
        record (fresh_state (echo true (Handled.replied [])) (conf 2 ∷ []) 0 (replicate 32 9)
            (zeros 32)) { settings_signature = some (2 ∷ []) },
        refl,
        refl,
      )
      refl refl refl (refl, tt) refl refl
