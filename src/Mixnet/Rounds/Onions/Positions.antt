-- ===== src/Mixnet/Rounds/Onions/Positions.antt =====
-- Where the workers put what they decrypt, and when they panic.
use mathlib.Core.Option.{none-ne-some}
use gjallarhorn.Prelude.{
  ℕ, zero, suc, ◌+◌, ◌-◌, ◌≤◌, ◌<◌, ◌≡◌, ◌≢◌, refl, sym, ap, ◌∙◌, ◌⊎◌, inl, inr, true, false, List,
  [], ◌∷◌, ◌++◌, Option, none, some, some_inj, ltb, ◌==◌, arith, length, get_elem?, take, drop, set,
  length-set, get_elem?-set, get_elem?-set_other, Bool-cases,
}
use gjallarhorn.Prelude.Bytes.{Bytes, u32}
use gjallarhorn.Mixnet.Replies.{Box, forward_nonce}
use gjallarhorn.Mixnet.Rounds.{
  Outcome, responds, fails, overflowing_onions, OnionsRequest, RoundState,
}
use gjallarhorn.Mixnet.Rounds.Onions.{receive_onions, decrypt_onion, decrypt_from}

module _ (x : Box) (round : ℕ) where
  abbrev pub shared_key : RoundState → Bytes → Bytes
  shared_key st onion = x.precompute (take 32 onion) st.onion_private_key

  abbrev pub opened : RoundState → Bytes → Option Bytes
  opened st onion = x.open_after (drop 32 onion) (forward_nonce round) (shared_key st onion)

  -- A round whose slices have room for every onion.
  pub record HasRoom (st : RoundState) : Type 0 where
    pub both_ways : st.bidirectional ≡ true
    pub same_length : length st.shared_keys ≡ length st.incoming

  -- What a job has done to the round.
  pub record Fills (st : RoundState) (p : ℕ) (onions : List Bytes) (st' : RoundState) : Type 0 where
    pub result : decrypt_from x round st p onions ≡ some st'
    pub room : length st'.incoming ≡ length st.incoming
    pub has_room : HasRoom st'
    pub key_kept : st'.onion_private_key ≡ st.onion_private_key
    pub size_kept : st'.incoming_onion_size ≡ st.incoming_onion_size
    pub opens :
        (k : ℕ) (onion : Bytes)
        → get_elem? onions k ≡ some onion
        → length onion ≡ st.incoming_onion_size
        → (get_elem? st'.incoming (p + k) ≡ some (opened st onion))
          × (get_elem? st'.shared_keys (p + k) ≡ some (shared_key st onion))
    pub others :
        (j : ℕ)
        → j < p ⊎ p + length onions ≤ j
        → (get_elem? st'.incoming j ≡ get_elem? st.incoming j)
          × (get_elem? st'.shared_keys j ≡ get_elem? st.shared_keys j)
    pub skips :
        (k : ℕ) (onion : Bytes)
        → get_elem? onions k ≡ some onion
        → length onion ≢ st.incoming_onion_size
        → get_elem? st'.incoming (p + k) ≡ get_elem? st.incoming (p + k)
    pub frame : st' ≡ record st { incoming = st'.incoming; shared_keys = st'.shared_keys }

  abbrev pub stored : RoundState → ℕ → Bytes → RoundState
  stored st p onion = record st {
    incoming = set st.incoming p (opened st onion);
    shared_keys = set st.shared_keys p (shared_key st onion);
  }

  decrypt_onion-stores :
      (st : RoundState) (p : ℕ) (onion : Bytes)
      → HasRoom st
      → p < length st.incoming
      → length onion ≡ st.incoming_onion_size
      → decrypt_onion x round st p onion ≡ some (stored st p onion)
  unfolding decrypt_onion
  decrypt_onion-stores st p onion room fits size =
      let a : (length onion == st.incoming_onion_size) ≡ true = ground arith in
      let b : ltb p (length st.incoming) ≡ true = ground arith in
      let c : ltb p (length st.shared_keys) ≡ true = ground (arith, room.same_length) in
      rw (decrypt_onion, a, b, room.both_ways, c)

  decrypt_onion-skips :
      (st : RoundState) (p : ℕ) (onion : Bytes)
      → length onion ≢ st.incoming_onion_size
      → decrypt_onion x round st p onion ≡ some st
  unfolding decrypt_onion
  decrypt_onion-skips st p onion size =
      let a : (length onion == st.incoming_onion_size) ≡ false = ground arith in
      rw (decrypt_onion, a)

  module _ (st : RoundState) (p : ℕ) (onion : Bytes) (onions : List Bytes) where
    skips_then :
        length onion ≢ st.incoming_onion_size
        → (st' : RoundState) × Fills st (p + 1) onions st'
        → (st' : RoundState) × Fills st p (onion ∷ onions) st'
    unfolding decrypt_from
    skips_then size (st', f) = (
      st',
      record {
        result = rw (decrypt_from, decrypt_onion-skips st p onion size) f.result;
        room = f.room;
        has_room = f.has_room;
        key_kept = f.key_kept;
        size_kept = f.size_kept;
        opens = at;
        others = λ j away. f.others j (ground arith);
        skips = left;
        frame = f.frame;
      },
    )
      where
        left :
            (k : ℕ) (o : Bytes)
            → get_elem? (onion ∷ onions) k ≡ some o
            → length o ≢ st.incoming_onion_size
            → get_elem? st'.incoming (p + k) ≡ get_elem? st.incoming (p + k)
        left zero o e h = (f.others (p + 0) (inl (omega arith))).0
        left (suc k) o e h =
            let there : p + suc k ≡ p + 1 + k = omega arith in rw there (f.skips k o e h)

        at :
            (k : ℕ) (o : Bytes)
            → get_elem? (onion ∷ onions) k ≡ some o
            → length o ≡ st.incoming_onion_size
            → (get_elem? st'.incoming (p + k) ≡ some (opened st o))
              × (get_elem? st'.shared_keys (p + k) ≡ some (shared_key st o))
        at zero o e h = absurd (size (ap length (some_inj e) ∙ h))
        at (suc k) o e h =
            let there : p + suc k ≡ p + 1 + k = omega arith in rw there (f.opens k o e h)

    stores_then :
        HasRoom st
        → p < length st.incoming
        → length onion ≡ st.incoming_onion_size
        → (st' : RoundState) × Fills (stored st p onion) (p + 1) onions st'
        → (st' : RoundState) × Fills st p (onion ∷ onions) st'
    unfolding decrypt_from
    stores_then has fits size (st', f) = (
      st',
      record {
        result = rw (decrypt_from, decrypt_onion-stores st p onion has fits size) f.result;
        has_room = f.has_room;
        key_kept = f.key_kept;
        size_kept = f.size_kept;
        room = f.room ∙ length-set st.incoming p (opened st onion);
        opens = at;
        others = λ j away.
            let (a, b) = f.others j (ground arith) in
            (
              a ∙ get_elem?-set_other st.incoming p j (opened st onion) (ground arith),
              b ∙ get_elem?-set_other st.shared_keys p j (shared_key st onion) (ground arith),
            );
        skips = left;
        frame = f.frame;
      },
    )
      where
        left :
            (k : ℕ) (o : Bytes)
            → get_elem? (onion ∷ onions) k ≡ some o
            → length o ≢ st.incoming_onion_size
            → get_elem? st'.incoming (p + k) ≡ get_elem? st.incoming (p + k)
        left zero o e h = absurd (h (ap length (sym (some_inj e)) ∙ size))
        left (suc k) o e h =
            let there : p + suc k ≡ p + 1 + k = omega arith in
            rw there (f.skips k o e h)
            ∙ get_elem?-set_other st.incoming p (p + suc k) (opened st onion) (inl (omega arith))

        at :
            (k : ℕ) (o : Bytes)
            → get_elem? (onion ∷ onions) k ≡ some o
            → length o ≡ st.incoming_onion_size
            → (get_elem? st'.incoming (p + k) ≡ some (opened st o))
              × (get_elem? st'.shared_keys (p + k) ≡ some (shared_key st o))
        at zero o e h =
            let here : p + 0 ≡ p = omega arith in
            let (a, b) = f.others p (inl (omega arith)) in
            rw (here, sym (some_inj e))
              (
                a ∙ get_elem?-set st.incoming p (opened st onion) fits,
                b
                    ∙ get_elem?-set st.shared_keys p (shared_key st onion)
                        (omega (arith, has.same_length)),
              )
        at (suc k) o e h =
            let there : p + suc k ≡ p + 1 + k = omega arith in rw there (f.opens k o e h)

  pub decrypt_from-Fills :
      (st : RoundState) (p : ℕ) (onions : List Bytes)
      → HasRoom st
      → p + length onions ≤ length st.incoming
      → (st' : RoundState) × Fills st p onions st'
  unfolding decrypt_from
  decrypt_from-Fills st p [] has fits = (
    st,
    record {
      result = refl;
      room = refl;
      has_room = has;
      key_kept = refl;
      size_kept = refl;
      opens = λ k onion h. absurd (none-ne-some onion h);
      others = λ j away. (refl, refl);
      skips = λ k onion h. absurd (none-ne-some onion h);
      frame = refl;
    },
  )
  decrypt_from-Fills st p (onion ∷ onions) has fits =
      elim (Bool-cases (length onion == st.incoming_onion_size)) [
        | inl e ↦ stores_then st p onion onions has (omega arith) (ground arith) (
            decrypt_from-Fills (stored st p onion) (p + 1) onions
              (record {
                both_ways = has.both_ways;
                same_length =
                    length-set st.shared_keys p (shared_key st onion)
                    ∙ has.same_length
                    ∙ sym (length-set st.incoming p (opened st onion));
              })
              (omega (arith, length-set st.incoming p (opened st onion))))
        | inr e ↦
            skips_then st p onion onions (λ h. ground arith)
              (decrypt_from-Fills st (p + 1) onions has (omega arith))
      ]

  receive_onions-Fills :
      (st st' : RoundState) (req : OnionsRequest)
      → HasRoom st
      → length st.incoming ≡ st.num_incoming
      → req.offset + length req.onions < 4294967296
      → receive_onions st.num_incoming st req ≡ responds st'
      → (st'' : RoundState) × Fills st req.offset req.onions st''
  unfolding receive_onions
  receive_onions-Fills st st' req has room small accepted =
      decrypt_from-Fills st req.offset req.onions has
        (elim (Bool-cases (ltb st.num_incoming (u32 (req.offset + u32 (length req.onions))))) [
          | inl over ↦ refused (rw (receive_onions, over) at accepted)
          | inr fits ↦ ground (arith, room)
        ])
    where
      refused :
          {A : Type 0} → Path (Outcome RoundState) (fails overflowing_onions) (responds st') → A
      refused h = let bad : ⊥ = cc in absurd bad

  -- A request that `AddOnions` accepts, and whose end fits 32 bits, makes no worker panic in a
  -- two-way round: onion `k` of it, if it has the right size, is decrypted, with its key kept, at its
  -- own place of the round, and a place `j` outside the request does not change.
  pub receive_onions-opened :
      (st st' : RoundState) (req : OnionsRequest) (k j : ℕ) (onion : Bytes)
      → HasRoom st
      → length st.incoming ≡ st.num_incoming
      → req.offset + length req.onions < 4294967296
      → receive_onions st.num_incoming st req ≡ responds st'
      → get_elem? req.onions k ≡ some onion
      → length onion ≡ st.incoming_onion_size
      → j < req.offset ⊎ req.offset + length req.onions ≤ j
      → (st'' : RoundState) × (decrypt_from x round st req.offset req.onions ≡ some st'')
        × (get_elem? st''.incoming (req.offset + k) ≡ some (opened st onion))
        × (get_elem? st''.shared_keys (req.offset + k) ≡ some (shared_key st onion))
        × (get_elem? st''.incoming j ≡ get_elem? st.incoming j)
        × (get_elem? st''.shared_keys j ≡ get_elem? st.shared_keys j)
  receive_onions-opened st st' req k j onion has room small accepted e size away =
      let (st'', f) = receive_onions-Fills st st' req has room small accepted in
      let (msg, key) = f.opens k onion e size in
      let (same_msg, same_key) = f.others j away in (st'', f.result, msg, key, same_msg, same_key)

  -- A request whose end wraps is accepted as long as the wrapped end is within the round; if its
  -- first onion has the right size and its offset is not a place of the round, the worker panics.
  pub receive_onions-panics :
      (st : RoundState) (req : OnionsRequest) (onion : Bytes) (onions : List Bytes)
      → req.onions ≡ onion ∷ onions
      → length onion ≡ st.incoming_onion_size
      → length st.incoming ≤ req.offset
      → length req.onions < 4294967296
      → 4294967296 ≤ req.offset + length req.onions
      → req.offset + length req.onions - 4294967296 ≤ st.num_incoming
      → st.num_incoming < 4294967296
      → st.accepting_onions ≡ true
      → (receive_onions st.num_incoming st req
          ≡ responds (record st { jobs = st.jobs ++ (req ∷ []) }))
        × (decrypt_from x round st req.offset req.onions ≡ none)
  unfolding receive_onions decrypt_from decrypt_onion
  receive_onions-panics st req onion onions e size outside small wraps fits few accepting =
      let end : ltb st.num_incoming (u32 (req.offset + u32 (length req.onions))) ≡ false =
        ground arith in
      let a : (length onion == st.incoming_onion_size) ≡ true = ground arith in
      let b : ltb req.offset (length st.incoming) ≡ false = ground arith in
      let dead : decrypt_onion x round st req.offset onion ≡ none = rw (decrypt_onion, a, b) in
      (rw (receive_onions, end, accepting), rw (e, decrypt_from, dead))
