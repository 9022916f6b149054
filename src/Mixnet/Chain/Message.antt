-- ===== src/Mixnet/Chain/Message.antt =====
-- What is inside an onion comes to the service at the end of its way.
use gjallarhorn.Prelude.{
  ℕ, ◌≡◌, refl, sym, ap, ◌∙◌, List, [], ◌∷◌, ◌++◌, none, some, some_inj, if◌then◌else◌, true, ◌==◌,
  arith, length, get_elem?, drop, get_elem?-map, get_elem?-append_some,
}
use gjallarhorn.Prelude.Bytes.{Bytes}
use gjallarhorn.Mixnet.Settings.{PublicServerConfig}
use gjallarhorn.Mixnet.Filter.Index.{filter_incoming-index}
use gjallarhorn.Mixnet.Replies.{Box, forward_nonce}
use gjallarhorn.Mixnet.Rounds.Onions.Positions.{shared_key, opened}
use gjallarhorn.Mixnet.Chain.{Stage, Network}
use gjallarhorn.Mixnet.Chain.Worked.{open_sized, decrypted}
use gjallarhorn.Mixnet.Chain.Trace.{Passes, Trace, arrives, hops, valid_at, index_at, goes_on-sized}

module _ (x : Box) (round : ℕ) where
  -- The layers of an onion, opened one after the other, behind the sender's public keys.
  abbrev pub Unwraps : List Bytes → Bytes → Bytes → Type 0
  Unwraps [] onion m = onion ≡ m
  Unwraps (key ∷ keys) onion m =
      (inner : Bytes) × (x.open_after (drop 32 onion) (forward_nonce round) key ≡ some inner)
      × Unwraps keys inner m

  -- One server.
  goes_on-opened :
      (stage : Stage) (batch : List Bytes) (k v : ℕ) (onion : Bytes)
      → get_elem? batch k ≡ some onion
      → get_elem? (index_at x round stage batch) k ≡ some (some v)
      → (inner : Bytes) × (x.open_after
            (drop 32 onion)
            (forward_nonce round)
            (shared_key x round stage.state onion)
          ≡ some inner)
        × (get_elem? (valid_at x round stage batch) v ≡ some inner)
  goes_on-opened stage batch k v onion sent goes =
      let st = stage.state in
      let (m, e, there) = filter_incoming-index (decrypted x round st batch) k v goes in
      let at = get_elem?-map (open_sized x round st) batch k sent in
      let size = goes_on-sized x round stage batch k v onion sent goes in
      let fits : (length onion == st.incoming_onion_size) ≡ true = ground arith in
      (
        m,
        ap (λ b. if b then opened x round st onion else none) (sym fits) ∙ some_inj (sym at ∙ e),
        there,
      )

  module _ (size : ℕ) (net : Network) where
    -- The service at the end of an onion's way finds, at the place where the onion comes to, the
    -- message inside all its layers, under the keys that its sender shares with the servers.
    pub Trace-message :
        {m : ℕ} {conf : PublicServerConfig} {batch : List Bytes} {k : ℕ} {keys : List Bytes}
        {last : Stage} {final : List Bytes} {p : ℕ} (onion : Bytes)
        → Trace x round size net m conf batch k keys last final p
        → get_elem? batch k ≡ some onion
        → (msg : Bytes) × (get_elem? final p ≡ some msg) × Unwraps keys onion msg
    Trace-message onion (arrives conf stage noise batch k v key ps) sent =
        let (inner, opens, there) = goes_on-opened stage batch k v onion sent ps.goes_on in
        (
          inner,
          get_elem?-append_some (valid_at x round stage batch) noise v there,
          (inner, ap (x.open_after (drop 32 onion) (forward_nonce round)) (same ps) ∙ opens, refl),
        )
      where
        same :
            (ps : Passes x round size net 0 conf stage noise batch k v key)
            → key ≡ shared_key x round stage.state onion
        same ps = ps.shares ∙ ap (shared_key x round stage.state) (some_inj (sym ps.sent ∙ sent))
    Trace-message onion
          (hops behind conf next stage noise batch k v key keys last final p ps later shuffles t)
          sent =
        let (inner, opens, there) = goes_on-opened stage batch k v onion sent ps.goes_on in
        let out = valid_at x round stage batch ++ noise in
        let at =
          shuffles.shuffle_at out refl v
          ∙ get_elem?-append_some (valid_at x round stage batch) noise v there in
        let (msg, found, unwraps) = Trace-message inner t at in
        (
          msg,
          found,
          (
            inner,
            ap (x.open_after (drop 32 onion) (forward_nonce round))
                  (ps.shares ∙ ap (shared_key x round stage.state) (some_inj (sym ps.sent ∙ sent)))
                ∙ opens,
            unwraps,
          ),
        )
