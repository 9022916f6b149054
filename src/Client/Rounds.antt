-- ===== src/Client/Rounds.antt =====
-- Which rounds a client takes part in, and what it gives back from them.
use mathlib.Core.Option.{none-ne-some}
use gjallarhorn.Prelude.{
  ℕ, zero, suc, ◌+◌, ◌≤◌, ◌≡◌, refl, sym, ap, ◌∙◌, Bool, true, List, [], ◌∷◌, ◌++◌, Option, none,
  some, some_inj, if◌then◌else◌, ltb, ◌==◌, arith, Bool-cases, inl, inr, length, get_elem?, nat_eq,
}
use gjallarhorn.Prelude.Bytes.{Bytes}
use gjallarhorn.Prelude.Maps.{lookup, delete}
use gjallarhorn.Mixnet.Settings.{RoundSettings, PublicServerConfig}
use gjallarhorn.Mixnet.Replies.{forward_nonce, backward_nonce}
use gjallarhorn.Coordinator.{NewRound, SignedConfig}
use gjallarhorn.Convo.{DeadDropMessage}
use gjallarhorn.Client.{
  ClientRound, Client, Event, replies, sends, Verified, all_good, one_bad, out_of_range, verify_all,
  seal_all, run_verified, run_round, open_all, open_reply_onion, reply_onion_size,
}

verify_all-good :
    (verify : Bytes → Bytes → Bool) (mixers : List PublicServerConfig) (sigs : List Bytes)
    → verify_all verify mixers sigs ≡ all_good
    → (i : ℕ) {mixer : PublicServerConfig} → get_elem? mixers i ≡ some mixer
    → (sig : Bytes) × (get_elem? sigs i ≡ some sig) × (verify mixer.key sig ≡ true)
unfolding verify_all
verify_all-good verify [] sigs h i {mixer} e = absurd (none-ne-some mixer e)
verify_all-good verify (m ∷ mixers) [] h i e = let bad : ⊥ = cc in absurd bad
verify_all-good verify (m ∷ mixers) (sig ∷ sigs) h zero {mixer} e =
    elim (Bool-cases (verify m.key sig)) [
      | inl good ↦
          (sig, refl, ap (λ (c : PublicServerConfig). verify c.key sig) (sym (some_inj e)) ∙ good)
      | inr bad_sig ↦ let h' = rw (verify_all, bad_sig) at h in let bad : ⊥ = cc in absurd bad
    ]
verify_all-good verify (m ∷ mixers) (sig ∷ sigs) h (suc i) e =
    elim (Bool-cases (verify m.key sig)) [
      | inl good ↦ verify_all-good verify mixers sigs (rw (verify_all, good) at h) i e
      | inr bad_sig ↦ let h' = rw (verify_all, bad_sig) at h in let bad : ⊥ = cc in absurd bad
    ]

-- A round's goroutine sends onions only if every signature is good and the deadline is not near.
record Sending (latency now sealed_at : ℕ) (v : NewRound) (x : Verified) : Type 0 where
  pub good : x ≡ all_good
  pub in_time : now + latency ≤ v.end_time
  pub still_in_time : sealed_at + 10 ≤ v.end_time

run_verified-Sending :
    (seal : Bytes → Bytes × List Bytes) (outgoing : List DeadDropMessage)
    (latency now sealed_at : ℕ) (v : NewRound) (x : Verified) {onions : List Bytes}
    {keys : List (List Bytes)}
    → run_verified seal outgoing latency now sealed_at v x ≡ sends onions keys
    → Sending latency now sealed_at v x
unfolding seal_all
run_verified-Sending seal outgoing latency now sealed_at v one_bad h =
    let bad : ⊥ = cc in absurd bad
run_verified-Sending seal outgoing latency now sealed_at v out_of_range h =
    let bad : ⊥ = cc in absurd bad
run_verified-Sending seal outgoing latency now sealed_at v all_good h =
    elim (Bool-cases (ltb v.end_time (now + latency))) [
      | inl late ↦ let h' = rw late at h in let bad : ⊥ = cc in absurd bad
      | inr early ↦ elim (Bool-cases (ltb v.end_time (sealed_at + 10))) [
        | inl late ↦ let h' = rw (early, late) at h in let bad : ⊥ = cc in absurd bad
        | inr still ↦ record { good = refl; in_time = ground arith; still_in_time = ground arith }
      ]
    ]

module _ (verify : RoundSettings → Bytes → Bytes → Bool)
    (seal : RoundSettings → Bytes → Bytes → Bytes × List Bytes) where
  -- A client sends onions for a round only if each mix server of its configuration has signed the
  -- announced settings, and there is time left, both before and after it made the onions.
  pub run_round-Sending :
      (outgoing : List DeadDropMessage) (latency now sealed_at : ℕ) (conf : SignedConfig)
      (v : NewRound) (onions : List Bytes) (keys : List (List Bytes)) (i : ℕ)
      (mixer : PublicServerConfig)
      → run_round verify seal outgoing latency now sealed_at conf v ≡ sends onions keys
      → get_elem? conf.mix_servers i ≡ some mixer
      → (sig : Bytes) × (get_elem? v.mix_signatures i ≡ some sig)
        × (verify v.mix_settings mixer.key sig ≡ true)
        × (now + latency ≤ v.end_time)
        × (sealed_at + 10 ≤ v.end_time)
  unfolding run_round
  run_round-Sending outgoing latency now sealed_at conf v onions keys i mixer h e =
      let x = verify_all (verify v.mix_settings) conf.mix_servers v.mix_signatures in
      let s =
        run_verified-Sending (seal v.mix_settings (forward_nonce v.round)) outgoing latency now
          sealed_at v x h in
      let (sig, there, good) =
        verify_all-good (verify v.mix_settings) conf.mix_servers v.mix_signatures s.good i e in
      (sig, there, good, s.in_time, s.still_in_time)

-- What a reply onion gives.
abbrev pub opened : (Bytes → List Bytes → Option Bytes) → ℕ → Bytes → List Bytes → Option Bytes
opened open_onion size onion ks = if length onion == size then open_onion onion ks else none

open_all-at :
    (open_onion : Bytes → List Bytes → Option Bytes) (round size : ℕ) (onions : List Bytes)
    (keys : List (List Bytes)) (i : ℕ) {onion : Bytes} {ks : List Bytes}
    → get_elem? onions i ≡ some onion
    → get_elem? keys i ≡ some ks
    → get_elem? (open_all open_onion round size onions keys).0 i
      ≡ some (opened open_onion size onion ks)
unfolding open_all
open_all-at open_onion round size [] keys i {onion} a b = absurd (none-ne-some onion a)
open_all-at open_onion round size (o ∷ onions) [] i {onion} {ks} a b = absurd (none-ne-some ks b)
open_all-at open_onion round size (o ∷ onions) (k ∷ keys) zero a b =
    rw (sym (some_inj a), sym (some_inj b))
      (elim (Bool-cases (length o == size)) [ inl fits ↦ rw fits | inr other ↦ rw other ])
open_all-at open_onion round size (o ∷ onions) (k ∷ keys) (suc i) a b =
    elim (Bool-cases (length o == size)) [
      | inl fits ↦ rw fits (open_all-at open_onion round size onions keys i a b)
      | inr other ↦ rw other (open_all-at open_onion round size onions keys i a b)
    ]

length-open_all :
    (open_onion : Bytes → List Bytes → Option Bytes) (round size : ℕ) (onions : List Bytes)
    (keys : List (List Bytes))
    → length keys ≡ length onions
    → length (open_all open_onion round size onions keys).0 ≡ length keys
unfolding open_all
length-open_all open_onion round size [] [] h = refl
length-open_all open_onion round size [] (k ∷ keys) h = absurd (omega arith)
length-open_all open_onion round size (o ∷ onions) [] h = absurd (omega arith)
length-open_all open_onion round size (o ∷ onions) (k ∷ keys) h =
    elim (Bool-cases (length o == size)) [
      | inl fits ↦
          rw fits (ap suc (length-open_all open_onion round size onions keys (omega arith)))
      | inr other ↦
          rw other (ap suc (length-open_all open_onion round size onions keys (omega arith)))
    ]

-- A client that has sent onions and gets as many back gives one reply for each to its handler, as
-- its last event, and forgets the round; reply `i` is what onion `i` opens to with the keys of
-- message `i`, or nil if the onion has a wrong size or does not open.
pub open_reply_onion-replies :
    (open_onion : Bytes → Bytes → List Bytes → Option Bytes) (c : Client) (round : ℕ)
    (onions : List Bytes) (st : ClientRound) (keys : List (List Bytes)) (i : ℕ) (onion : Bytes)
    (ks : List Bytes)
    → lookup round c.rounds ≡ some st
    → st.onion_keys ≡ some keys
    → length keys ≡ length onions
    → get_elem? onions i ≡ some onion
    → get_elem? keys i ≡ some ks
    → (msgs : List (Option Bytes)) × (events : List Event) × (open_reply_onion open_onion c round
          onions
        ≡ (record c { rounds = delete round c.rounds }, events ++ (replies round msgs ∷ [])))
      × (length msgs ≡ length keys)
      × (get_elem? msgs i
          ≡ some (opened (open_onion (backward_nonce round)) (reply_onion_size st.config) onion ks))
unfolding open_reply_onion
open_reply_onion-replies open_onion c round onions st keys i onion ks there made same a b =
    let f = open_onion (backward_nonce round) in
    let (msgs, events) = open_all f round (reply_onion_size st.config) onions keys in
    let fits : (length keys == length onions) ≡ true = ground arith in
    (
      msgs,
      events,
      rw (open_reply_onion, there, made, fits),
      length-open_all f round (reply_onion_size st.config) onions keys same,
      open_all-at f round (reply_onion_size st.config) onions keys i a b,
    )
