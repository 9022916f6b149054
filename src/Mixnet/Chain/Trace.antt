-- ===== src/Mixnet/Chain/Trace.antt =====
-- The way of one onion through the servers of a chain, and what opens the reply to it.
use gjallarhorn.Prelude.{
  ℕ, suc, ◌+◌, ◌<◌, ◌≡◌, sym, ◌∙◌, List, [], ◌∷◌, ◌++◌, Option, some, some_inj, ◌==◌, arith, length,
  get_elem?, get_elem?-map, Bool-cases, inl, inr,
}
use mathlib.Core.Option.{none-ne-some}
use gjallarhorn.Prelude.Bytes.{Bytes}
use gjallarhorn.Mixnet.Settings.{PublicServerConfig}
use gjallarhorn.Mixnet.Filter.{filter_incoming}
use gjallarhorn.Mixnet.Filter.Index.{filter_incoming-index}
use gjallarhorn.Mixnet.Replies.{Box, backward_nonce}
use gjallarhorn.Mixnet.Rounds.Onions.Positions.{shared_key}
use gjallarhorn.Mixnet.Rounds.Closing.{IsShuffler}
use gjallarhorn.Mixnet.Chain.{Stage, Network}
use gjallarhorn.Mixnet.Chain.Worked.{IsIdle, open_sized, decrypted}

module _ (x : Box) (round : ℕ) where
  -- The boxes of a reply, opened one after the other.
  abbrev pub Peels : List Bytes → Bytes → Bytes → Type 0
  Peels [] box r = box ≡ r
  Peels (key ∷ keys) box r =
      (inner : Bytes) × (x.open_after box (backward_nonce round) key ≡ some inner)
      × Peels keys inner r

  abbrev pub valid_at : Stage → List Bytes → List Bytes
  valid_at stage batch = (filter_incoming (decrypted x round stage.state batch)).0

  abbrev pub index_at : Stage → List Bytes → List (Option ℕ)
  index_at stage batch = (filter_incoming (decrypted x round stage.state batch)).1

  abbrev pub shuffled : Stage → List Bytes → List Bytes
  shuffled stage out = (stage.shuffler (length out)).shuffle out

  -- A server that waits for a two-way round, with so many servers behind it, its noise made, and
  -- replies of the round's size.
  pub record Serves (size behind : ℕ) (stage : Stage) (noise : List Bytes) : Type 0 where
    pub idle : IsIdle stage.state
    pub place : length stage.state.chain ≡ suc stage.state.my_pos + behind
    pub reply_size : stage.service.size_reply_message ≡ size
    pub made : stage.state.noise ≡ some noise

  module _ (size : ℕ) (net : Network) where
    -- Onion `k` of a batch that a server gets is not dropped there: its message is number `v` of
    -- those that go on, and its sender shares a key with the server.
    pub record Passes (behind : ℕ) (conf : PublicServerConfig) (stage : Stage)
        (noise batch : List Bytes) (k v : ℕ) (key : Bytes) : Type 0 where
      pub dialled : net conf ≡ some stage
      pub serves : Serves size behind stage noise
      pub small : length batch < 4294967296
      pub onion : Bytes
      pub sent : get_elem? batch k ≡ some onion
      pub goes_on : get_elem? (index_at stage batch) k ≡ some (some v)
      pub shares : key ≡ shared_key x round stage.state onion

    -- The way of onion `k` of a batch from a server on, through the servers behind it, to place `p`
    -- of what the last server gives to its service; the keys that its sender shares with the
    -- servers, in their order.
    pub data Trace
        : ℕ
          → PublicServerConfig
          → List Bytes
          → ℕ
          → List Bytes
          → Stage
          → List Bytes
          → ℕ
          → Type 0 where
      arrives :
          (conf : PublicServerConfig) (stage : Stage) (noise batch : List Bytes) (k v : ℕ)
          (key : Bytes)
          → Passes 0 conf stage noise batch k v key
          → Trace 0 conf batch k (key ∷ []) stage (valid_at stage batch ++ noise) v
      hops :
          (behind : ℕ) (conf next : PublicServerConfig) (stage : Stage) (noise batch : List Bytes)
          (k v : ℕ) (key : Bytes) (keys : List Bytes) (last : Stage) (final : List Bytes) (p : ℕ)
          → Passes (suc behind) conf stage noise batch k v key
          → get_elem? stage.state.chain (suc stage.state.my_pos) ≡ some next
          → (shuffles : IsShuffler
              (stage.shuffler (length (valid_at stage batch ++ noise)))
              (length (valid_at stage batch ++ noise)))
          → Trace behind next
              (shuffled stage (valid_at stage batch ++ noise))
              (shuffles.place v)
              keys
              last
              final
              p
          → Trace (suc behind) conf batch k (key ∷ keys) last final p

  -- An onion that goes on has the right size.
  pub goes_on-sized :
      (stage : Stage) (batch : List Bytes) (k v : ℕ) (onion : Bytes)
      → get_elem? batch k ≡ some onion
      → get_elem? (index_at stage batch) k ≡ some (some v)
      → length onion ≡ stage.state.incoming_onion_size
  goes_on-sized stage batch k v onion sent goes =
      let (m, e, there) = filter_incoming-index (decrypted x round stage.state batch) k v goes in
      let at = get_elem?-map (open_sized x round stage.state) batch k sent in
      opens (some_inj (sym at ∙ e))
    where
      opens :
          {m : Bytes}
          → open_sized x round stage.state onion ≡ some m
          → length onion ≡ stage.state.incoming_onion_size
      opens {m} e = elim (Bool-cases (length onion == stage.state.incoming_onion_size)) [
        | inl fits ↦ ground arith
        | inr other ↦ absurd (none-ne-some m (rw other at e))
      ]
