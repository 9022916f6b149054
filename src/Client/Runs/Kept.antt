-- ===== src/Client/Runs/Kept.antt =====
-- What a round that starts adds, and that the other handlers keep the client as it should be.
use mathlib.Core.Path.{subst}
use mathlib.Core.Option.{none-ne-some}
use gjallarhorn.Prelude.{
  ℕ, zero, suc, ◌≤◌, ◌≡◌, refl, sym, ◌∙◌, List, [], ◌∷◌, Option, none, some, some_inj, ◌==◌, ==_iff,
  arith, length, Bool-cases, Option-cases, inl, inr, nat_eq,
}
use gjallarhorn.Prelude.Bytes.{Bytes}
use gjallarhorn.Prelude.Maps.{
  Map, lookup, insert, delete, lookup-insert, lookup-delete, lookup-insert_same,
}
use gjallarhorn.Mixnet.Replies.{backward_nonce}
use gjallarhorn.Coordinator.{NewRound, SignedConfig}
use gjallarhorn.Client.{
  ClientRound, Client, failed, run, debug_error, add_round, Ran, keys_left, leave_keys, open_all,
  open_found, open_reply_onion,
}
use gjallarhorn.Client.Runs.{IsSynced, Started, Runs}

pub no_run : (r k : ℕ) → ¬ Runs r (failed k ∷ [])
no_run r k (zero, h) = let e = some_inj h in cc
no_run r k (suc i, h) = absurd (none-ne-some (run r) h)

pub no_error : (r k : ℕ) → ¬ Runs r (debug_error k ∷ [])
no_error r k (zero, h) = let e = some_inj h in cc
no_error r k (suc i, h) = absurd (none-ne-some (run r) h)

pub add_round-Good :
    (c : Client) (v : NewRound) (conf : SignedConfig)
    → IsSynced c
    → v.round ≤ c.latest_round
    → conf.hash ≡ v.config_hash
    → IsSynced (add_round c v conf).0 × Started v (add_round c v conf).0
add_round-Good c v conf s late same = (
  record {
    current = λ r st h. elim (Bool-cases (v.round == r)) [
      | inl here ↦ let e : v.round ≡ r = (==_iff v.round r).0 here in omega arith
      | inr other ↦ s.current r st (
          sym (
            lookup-insert v.round r (record { config = conf; onion_keys = none }) c.rounds
            ∙ rw other)
          ∙ h)
    ];
    agreed = s.agreed;
  },
  record {
    st = record { config = conf; onion_keys = none };
    there = lookup-insert_same v.round (record { config = conf; onion_keys = none }) c.rounds;
    announced_config = same;
    no_keys = refl;
  },
)

-- The other handlers leave the configuration alone, and add no round.
same_rounds :
    (c : Client) (rounds : Map ℕ ClientRound)
    → IsSynced c
    → ((r : ℕ) (st : ClientRound)
        → lookup r rounds ≡ some st
        → (old : ClientRound) × (lookup r c.rounds ≡ some old))
    → IsSynced (record c { rounds = rounds })
same_rounds c rounds s known = record {
  current = λ r st h. let (old, there) = known r st h in s.current r old there;
  agreed = s.agreed;
}

pub leave_keys-IsSynced :
    (c : Client) (round : ℕ) (ran : Ran) → IsSynced c → IsSynced (leave_keys c round ran)
unfolding leave_keys
leave_keys-IsSynced c round ran s = elim (Option-cases (lookup round c.rounds)) [
  | inl gone ↦ rw (leave_keys, gone) s
  | inr (st, there) ↦ elim (Option-cases (keys_left ran)) [
    | inl no_keys ↦ rw (leave_keys, there, no_keys) s
    | inr (keys, left) ↦
        rw (leave_keys, there, left)
          (same_rounds c (insert round (record st { onion_keys = some keys }) c.rounds) s
            (λ r st' h. elim (Bool-cases (round == r)) [
              | inl here ↦
                  let e : round ≡ r = (==_iff round r).0 here in
                  (st, subst (λ k. lookup k c.rounds ≡ some st) e there)
              | inr other ↦ (
                st',
                sym (
                      lookup-insert round r (record st { onion_keys = some keys }) c.rounds
                      ∙ rw other)
                    ∙ h,
              )
            ]))
  ]
]

open_found-IsSynced :
    (open_onion : Bytes → List Bytes → Option Bytes) (c : Client) (round : ℕ) (onions : List Bytes)
    (found : Option ClientRound)
    → IsSynced c
    → IsSynced (open_found open_onion c round onions found).0
unfolding open_all
open_found-IsSynced open_onion c round onions none s = s
open_found-IsSynced open_onion c round onions (some st) s = elim (Option-cases st.onion_keys) [
  | inl no_keys ↦ rw no_keys s
  | inr (keys, made) ↦ elim (Bool-cases (length keys == length onions)) [
    | inr other ↦ rw (made, other) s
    | inl as_many ↦
        rw (made, as_many)
          (same_rounds c (delete round c.rounds) s (λ r st' h. elim (Bool-cases (round == r)) [
            | inl here ↦
                absurd (none-ne-some st' (sym (lookup-delete round r c.rounds ∙ rw here) ∙ h))
            | inr kept ↦ (st', sym (lookup-delete round r c.rounds ∙ rw kept) ∙ h)
          ]))
  ]
]

pub open_reply_onion-IsSynced :
    (open_onion : Bytes → Bytes → List Bytes → Option Bytes) (c : Client) (round : ℕ)
    (onions : List Bytes)
    → IsSynced c
    → IsSynced (open_reply_onion open_onion c round onions).0
unfolding open_reply_onion
open_reply_onion-IsSynced open_onion c round onions s =
    open_found-IsSynced (open_onion (backward_nonce round)) c round onions (lookup round c.rounds) s
