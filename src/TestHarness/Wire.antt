-- ===== src/TestHarness/Wire.antt =====
-- The harness speaks the client's language: internal/testharness/convostate.go against
-- cmd/gjallarhorn-client/conversation.go, and one harness client against another.
use gjallarhorn.Prelude.{
  ℕ, zero, suc, ◌-◌, ◌≤◌, ◌≡◌, ◌≢◌, refl, sym, ap, ◌∙◌, true, false, List, [], ◌∷◌, ◌++◌, none,
  some, if◌then◌else◌, ltb, ◌==◌, arith, length, copy, copy_all, Option-cases, inl, inr, replicate,
  length-copy,
}
use gjallarhorn.Prelude.Bytes.{Bytes, zeros, length-zeros}
use gjallarhorn.Convo.{DeadDropMessage}
use gjallarhorn.Conversation
use gjallarhorn.Conversation.{Conversation, send_round, roll_and_replace_key}
use gjallarhorn.Conversation.Message.{ConvoMessage, marshal}
use gjallarhorn.Conversation.Message.RoundTrip.{length-marshal}
use gjallarhorn.Conversation.Keys.{
  Crypto, IsSecretbox, roll_from, roll_key, message_nonce, dead_drop,
}
use gjallarhorn.Conversation.Keys.Wheel.{roll_key_compose, roll_key-none}
use gjallarhorn.TestHarness.{
  HarnessConvoState, roll_key_to, seal, open_message, dead_drop_of, message_for, outgoing,
  trim_zero, open_first, replies,
}

module _ (x : Crypto) where
  -- A client's conversation that began with the harness's seed and may have sent in any rounds since.
  pub record Follows (c : Conversation) (st : HarnessConvoState) : Type 0 where
    pub peer : c.peer_username ≡ st.peer_username
    pub me : c.my_username ≡ st.my_username
    pub rolled :
        roll_key x st.session_key st.session_key_round c.session_key_round ≡ some c.session_key

  same_key :
      (c : Conversation) (st : HarnessConvoState) (round : ℕ)
      → Follows c st
      → c.session_key_round ≤ round
      → roll_key_to x round st ≡ roll_key x c.session_key c.session_key_round round
  unfolding roll_key_to roll_key
  same_key c st round f le = sym (
      roll_key_compose x st.session_key c.session_key st.session_key_round c.session_key_round round
        f.rolled le)

  has_key :
      (key : Bytes) (key_round target : ℕ)
      → key_round ≤ target
      → (k : Bytes) × (roll_key x key key_round target ≡ some k)
  has_key key key_round target le = elim (Option-cases (roll_key x key key_round target)) [
    | inl e ↦ absurd (let lt = (roll_key-none x key key_round target).0 e in omega arith)
    | inr found ↦ found
  ]

  sent_with :
      (now round : ℕ) (dummy : DeadDropMessage) (msg : ConvoMessage) (c : Conversation) (k : Bytes)
      → roll_key x c.session_key c.session_key_round round ≡ some k
      → ((send_round x now round dummy msg c).1 ≡ record {
        drop_id = dead_drop x round k;
        encrypted_message =
            copy
              (zeros 256)
              (x.secretbox_seal (marshal msg) (message_nonce x round c.peer_username) k);
      })
        × ((send_round x now round dummy msg c).0.session_key ≡ k)
        × ((send_round x now round dummy msg c).0.session_key_round ≡ round)
        × ((send_round x now round dummy msg c).0.peer_username ≡ c.peer_username)
        × ((send_round x now round dummy msg c).0.my_username ≡ c.my_username)
  unfolding send_round roll_and_replace_key Conversation.seal
  sent_with now round dummy msg c k e =
      rw (send_round, roll_and_replace_key, e) (refl, refl, refl, refl, refl)

  message_with :
      (cover : DeadDropMessage) (round : ℕ) (st : HarnessConvoState) (body k : Bytes)
      → roll_key_to x round st ≡ some k
      → message_for x cover round st body ≡ record {
        drop_id = dead_drop x round k;
        encrypted_message =
            copy
              (zeros 256)
              (x.secretbox_seal (copy (zeros 240) body) (message_nonce x round st.peer_username) k);
      }
  unfolding seal dead_drop_of
  message_with cover round st body k e = rw (message_for, seal, e, dead_drop_of, e)

  -- In a round for which the client still has a key the harness sends, for the text of the client's
  -- message, the very message that the client sends: the same dead drop and the same box; and the
  -- client's conversation goes on following the harness.
  pub outgoing-send_round :
      (now round : ℕ) (cover dummy : DeadDropMessage) (msg : ConvoMessage) (c : Conversation)
      (st : HarnessConvoState) (queue : List Bytes)
      → Follows c st
      → c.session_key_round ≤ round
      → (outgoing x cover round (record { state = some st; out_queue = marshal msg ∷ queue }) ≡ (
        record { state = some st; out_queue = queue },
        (send_round x now round dummy msg c).1 ∷ [],
      ))
        × Follows (send_round x now round dummy msg c).0 st
  unfolding outgoing
  outgoing-send_round now round cover dummy msg c st queue f le =
      let (k, e) = has_key c.session_key c.session_key_round round le in
      let (sent, key, at, peer, me) = sent_with now round dummy msg c k e in
      let full : copy (zeros 240) (marshal msg) ≡ marshal msg =
        copy_all (zeros 240) (marshal msg) (length-marshal msg ∙ sym (length-zeros 240)) in
      let boxed : Bytes → Bytes → DeadDropMessage = λ body name. record {
        drop_id = dead_drop x round k;
        encrypted_message = copy (zeros 256) (x.secretbox_seal body (message_nonce x round name) k);
      } in
      let same = same_key c st round f le ∙ e in
      (
        ap (λ m. (record { state = some st; out_queue = queue }, m ∷ []))
            (message_with cover round st (marshal msg) k same
              ∙ ap (λ b. boxed b st.peer_username) full
              ∙ ap (boxed (marshal msg)) (sym f.peer)
              ∙ sym sent),
        record {
          peer = peer ∙ f.peer;
          me = me ∙ f.me;
          rolled =
              ap (roll_key x st.session_key st.session_key_round) at
              ∙ sym (
                  roll_key_compose x st.session_key c.session_key st.session_key_round
                    c.session_key_round round f.rolled le)
              ∙ e
              ∙ ap some (sym key);
        },
      )

abbrev pub NoZeros : Bytes → Type 0
NoZeros [] = Unit {0}
NoZeros (b ∷ bs) = (b ≢ 0) × NoZeros bs

-- What is left of a padded body.
trim_zero-zeros : (n : ℕ) → trim_zero (replicate n 0) ≡ []
unfolding trim_zero
trim_zero-zeros zero = refl
trim_zero-zeros (suc n) = refl

trim_zero-copy :
    (n : ℕ) (body : Bytes)
    → NoZeros body
    → length body ≤ n
    → trim_zero (copy (replicate n 0) body) ≡ body
unfolding trim_zero
trim_zero-copy zero [] nz le = refl
trim_zero-copy (suc n) [] nz le = trim_zero-zeros (suc n)
trim_zero-copy zero (b ∷ body) nz le = absurd (omega arith)
trim_zero-copy (suc n) (b ∷ body) (ne, nz) le =
    let printable : (b == 0) ≡ false = ground arith in
    rw printable (ap (◌∷◌ b) (trim_zero-copy n body nz (omega arith)))

module _ (x : Crypto) (law : IsSecretbox x) (round : ℕ) (b : HarnessConvoState) where
  -- None of these messages opens.
  abbrev pub AllShut : List Bytes → Type 0
  AllShut [] = Unit {0}
  AllShut (ct ∷ cts) = (open_message x ct round b ≡ none) × AllShut cts

  open_first-skips :
      (before after : List Bytes)
      → AllShut before
      → open_first x true round b (before ++ after) ≡ open_first x true round b after
  unfolding open_first
  open_first-skips [] after shut = refl
  open_first-skips (ct ∷ before) after (e, shut) =
      rw (open_first, e) (open_first-skips before after shut)

  open_first-opens :
      (ct pt : Bytes) (after : List Bytes)
      → open_message x ct round b ≡ some pt
      → open_first x true round b (ct ∷ after)
        ≡ record { from_peer = b.peer_username; body = trim_zero pt; round = round } ∷ []
  unfolding open_first
  open_first-opens ct pt after e = rw (open_first, e)

  -- A body without zero bytes that fits a message comes to the peer, whose conversation has the same
  -- seed, in any round from the seed's on: of the messages that the peer gets back, those that it
  -- cannot open are skipped, and the body is given to it whole, as from the sender.
  pub replies-outgoing_harness :
      (cover : DeadDropMessage) (a : HarnessConvoState) (body : Bytes)
      (queue queue' before after : List Bytes)
      → a.peer_username ≡ b.my_username
      → b.session_key ≡ a.session_key
      → b.session_key_round ≡ a.session_key_round
      → a.session_key_round ≤ round
      → NoZeros body
      → length body ≤ 240
      → AllShut before
      → (m : DeadDropMessage) × (outgoing x cover round
            (record { state = some a; out_queue = body ∷ queue })
          ≡ (record { state = some a; out_queue = queue }, m ∷ []))
        × (replies x true round
              (record { state = some b; out_queue = queue' })
              (before ++ (m.encrypted_message ∷ after))
            ≡ record { from_peer = b.peer_username; body = body; round = round } ∷ [])
  unfolding outgoing replies roll_key_to open_message zeros
  replies-outgoing_harness cover a body queue queue' before after names key at le nz fits shut =
      let k = roll_from x (round - a.session_key_round) a.session_key_round a.session_key in
      let past : ltb round a.session_key_round ≡ false = ground arith in
      let mine : roll_key_to x round a ≡ some k = rw past in
      let theirs : roll_key_to x round b ≡ some k =
        ap (λ r. if ltb round r then none else some (roll_from x (round - r) r b.session_key)) at
        ∙ ap
            (λ s.
              if ltb round a.session_key_round
              then none
              else some (roll_from x (round - a.session_key_round) a.session_key_round s))
            key
        ∙ mine in
      let padded = copy (zeros 240) body in
      let nonce = message_nonce x round a.peer_username in
      let ct = x.secretbox_seal padded nonce k in
      let size : length ct ≡ length (zeros 256) = omega (
        arith,
        law.seal_length padded nonce k,
        length-copy (zeros 240) body,
        length-zeros 240,
        length-zeros 256,
      ) in
      let whole : copy (zeros 256) ct ≡ ct = copy_all (zeros 256) ct size in
      let opens : open_message x ct round b ≡ some padded =
        ap
          (λ o. elim o [
            | none ↦ none
            | some key' ↦ x.secretbox_open ct (message_nonce x round b.my_username) key'
          ])
          theirs
        ∙ ap (λ n. x.secretbox_open ct (message_nonce x round n) k) (sym names)
        ∙ law.open_seal padded nonce k in
      let trimmed : trim_zero padded ≡ body = trim_zero-copy 240 body nz fits in
      (
        record { drop_id = dead_drop x round k; encrypted_message = copy (zeros 256) ct },
        ap (λ m. (record { state = some a; out_queue = queue }, m ∷ []))
            (message_with x cover round a body k mine),
        ap (λ c. open_first x true round b (before ++ (c ∷ after))) whole
            ∙ open_first-skips before (ct ∷ after) shut
            ∙ open_first-opens ct padded after opens
            ∙ ap (λ t. record { from_peer = b.peer_username; body = t; round = round } ∷ [])
                trimmed,
      )
