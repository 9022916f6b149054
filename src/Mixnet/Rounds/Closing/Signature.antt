-- ===== src/Mixnet/Rounds/Closing/Signature.antt =====
-- Neither the onions that come in nor the end of a round changes its signature.
use mathlib.Core.Path.{subst}
use gjallarhorn.Prelude.{
  ℕ, suc, ◌+◌, ◌≡◌, refl, ◌∙◌, Bool, true, false, ◌==◌, List, [], ◌∷◌, ◌++◌, Option, none, some,
  if◌then◌else◌, ltb, length, get_elem?, take, drop, set, Option-cases, Bool-cases, inl, inr,
}
use gjallarhorn.Prelude.Bytes.{Bytes, u32}
use gjallarhorn.Mixnet.Settings.{PublicServerConfig}
use gjallarhorn.Mixnet.Filter.{filter_incoming}
use gjallarhorn.Mixnet.Replies.{Box, forward_nonce, encrypt_replies, reply_msg_size}
use gjallarhorn.Mixnet.Rounds.{
  Outcome, responds, fails, panics, waits, RpcError, Handled, replied, result, failed, Service,
  RoundState, OnionsRequest,
}
use gjallarhorn.Mixnet.Rounds.Onions.{
  begin_onions, receive_onions, receive_all, decrypt_onion, decrypt_from, run_jobs,
}
use gjallarhorn.Mixnet.Rounds.Closing.{
  World, Closed, fail_round, seal_replies, mix, mix_bidirectional, mix_unidirectional, mix_last,
  handled, filtered, mix_round, close_open,
}

abbrev pub Same : RoundState → RoundState → Type 0
Same st st' = st'.settings_signature ≡ st.settings_signature

-- What a step that may fail leaves, if it leaves anything.
abbrev pub SameIf : RoundState → Option RoundState → Type 0
SameIf st none = Unit {0}
SameIf st (some st') = Same st st'

-- The two ways in which a step branches.
either {ℓ} : {A : Type ℓ} (P : A → Type 0) (b : Bool) (x y : A) → P x → P y → P (if b then x else y)
either P true x y a c = a
either P false x y a c = c

given {ℓ κ} :
    {A : Type ℓ} {B : Type κ} (P : B → Type 0) (o : Option A) (x : B) (f : A → B)
    → P x
    → ((a : A) → P (f a))
    → P (elim o [ none ↦ x | some a ↦ f a ])
given P none x f p q = p
given P (some a) x f p q = q a

decrypt_onion-Same :
    (x : Box) (round : ℕ) (st : RoundState) (p : ℕ) (onion : Bytes)
    → SameIf st (decrypt_onion x round st p onion)
unfolding decrypt_onion
decrypt_onion-Same x round st p onion =
    let shared = x.precompute (take 32 onion) st.onion_private_key in
    let two_way : RoundState = record st {
      incoming = set st.incoming p (x.open_after (drop 32 onion) (forward_nonce round) shared);
      shared_keys = set st.shared_keys p shared;
    } in
    let one_way : RoundState = record st {
      incoming =
          set st.incoming p
            (x.open_box (drop 32 onion) (forward_nonce round) (take 32 onion) st.onion_private_key);
    } in
    let keyed : Option RoundState = if ltb p (length st.shared_keys) then some two_way else none in
    let placed : Option RoundState = if st.bidirectional then keyed else some one_way in
    let inside : Option RoundState = if ltb p (length st.incoming) then placed else none in
    either (SameIf st) (length onion == st.incoming_onion_size) inside (some st)
      (either (SameIf st) (ltb p (length st.incoming)) placed none
        (either (SameIf st) st.bidirectional keyed (some one_way)
          (either (SameIf st) (ltb p (length st.shared_keys)) (some two_way) none refl tt) refl)
        tt)
      refl

SameIf-then :
    (st st1 : RoundState) (o : Option RoundState) → Same st st1 → SameIf st1 o → SameIf st o
SameIf-then st st1 none e h = tt
SameIf-then st st1 (some st2) e h = h ∙ e

decrypt_from-Same :
    (x : Box) (round : ℕ) (st : RoundState) (p : ℕ) (onions : List Bytes)
    → SameIf st (decrypt_from x round st p onions)
unfolding decrypt_from
decrypt_from-Same x round st p [] = refl
decrypt_from-Same x round st p (onion ∷ onions) =
    let first = decrypt_onion-Same x round st p onion in
    elim (Option-cases (decrypt_onion x round st p onion)) [
      | inl gone ↦ rw (decrypt_from, gone) tt
      | inr (st1, e) ↦
          rw (decrypt_from, e)
            (SameIf-then st st1 (decrypt_from x round st1 (p + 1) onions)
              (subst (SameIf st) e first) (decrypt_from-Same x round st1 (p + 1) onions))
    ]

run_jobs-Same :
    (x : Box) (round : ℕ) (st : RoundState) (reqs : List OnionsRequest)
    → SameIf st (run_jobs x round st reqs)
unfolding run_jobs
run_jobs-Same x round st [] = refl
run_jobs-Same x round st (req ∷ reqs) =
    let first = decrypt_from-Same x round st req.offset req.onions in
    elim (Option-cases (decrypt_from x round st req.offset req.onions)) [
      | inl gone ↦ rw (run_jobs, gone) tt
      | inr (st1, e) ↦
          rw (run_jobs, e)
            (SameIf-then st st1 (run_jobs x round st1 reqs) (subst (SameIf st) e first)
              (run_jobs-Same x round st1 reqs))
    ]

module _ (w : World) (service : Service) (name : Bytes) (round : ℕ) where
  abbrev SameEnd : RoundState → Closed → Type 0
  SameEnd st c = Same st c.0

  seal_replies-Same :
      (st : RoundState) (rs : List Bytes) → SameEnd st (seal_replies w service round st rs)
  seal_replies-Same st rs =
      given (SameEnd st)
        (encrypt_replies w.box round
          (reply_msg_size (length st.chain) st.my_pos service.size_reply_message) w.fresh rs
          st.shared_keys st.incoming_index)
        (st, panics) (λ rs. (record st { replies = rs; encrypt_done = true }, responds [])) refl
        (λ rs. refl)

  mix_bidirectional-Same :
      (st : RoundState) (next : PublicServerConfig) (n : ℕ) (out : List Bytes)
      → SameEnd st (mix_bidirectional w service name round st next n out)
  mix_bidirectional-Same st next n out =
      let s = w.shuffler (length out) in
      let cut : List Bytes → Closed = λ rs.
        if ltb (length (s.unshuffle rs)) n
        then (st, panics)
        else seal_replies w service round st (take n (s.unshuffle rs)) in
      given (SameEnd st) (w.run_bidirectional next name round (s.shuffle out))
        (fail_round RpcError.run_round_failed st) cut refl
        (λ rs.
          either (SameEnd st) (ltb (length (s.unshuffle rs)) n) (st, panics)
            (seal_replies w service round st (take n (s.unshuffle rs))) refl
            (seal_replies-Same st (take n (s.unshuffle rs))))

  mix_unidirectional-Same :
      (st : RoundState) (next : PublicServerConfig) (out : List Bytes)
      → SameEnd st (mix_unidirectional w name round st next out)
  mix_unidirectional-Same st next out =
      given (SameEnd st)
        (w.run_unidirectional next name round ((w.shuffler (length out)).shuffle out))
        (fail_round RpcError.run_round_failed st)
        (λ r. (record st { close_result = r }, responds r)) refl (λ r. refl)

  handled-Same :
      (st : RoundState) (mode : Bool) (h : Handled) → SameEnd st (handled w service round st mode h)
  handled-Same st mode failed = refl
  handled-Same st true (replied rs) = seal_replies-Same st rs
  handled-Same st true (result r) = refl
  handled-Same st false (replied rs) = refl
  handled-Same st false (result r) = refl

  mix-Same :
      (st : RoundState) (n : ℕ) (out : List Bytes) → SameEnd st (mix w service name round st n out)
  mix-Same st n out =
      let passed : PublicServerConfig → Closed = λ next.
        if st.bidirectional
        then mix_bidirectional w service name round st next n out
        else mix_unidirectional w name round st next out in
      either (SameEnd st) (ltb (suc st.my_pos) (length st.chain))
        (elim (get_elem? st.chain (suc st.my_pos)) [
          | none ↦ (st, panics)
          | some next ↦ passed next
        ])
        (mix_last w service round st out)
        (given (SameEnd st) (get_elem? st.chain (suc st.my_pos)) (st, panics) passed refl
          (λ next.
            either (SameEnd st) st.bidirectional
              (mix_bidirectional w service name round st next n out)
              (mix_unidirectional w name round st next out) (mix_bidirectional-Same st next n out)
              (mix_unidirectional-Same st next out)))
        (given (SameEnd st) st.settings (st, panics)
          (λ settings.
            handled w service round st st.bidirectional (service.handle_messages settings out))
          refl
          (λ settings. handled-Same st st.bidirectional (service.handle_messages settings out)))

  mix_round-Same : (st : RoundState) → SameEnd st (mix_round w service name round st)
  unfolding mix_round
  mix_round-Same st =
      let valid = (filter_incoming st.incoming).0 in
      given (SameEnd st) st.noise (record st { closed = true }, waits)
        (λ noise. mix w service name round (filtered st) (length valid) (valid ++ noise)) refl
        (λ noise. mix-Same (filtered st) (length valid) (valid ++ noise))

  pub close_open-Same : (st : RoundState) → SameEnd st (close_open w service name round st)
  unfolding close_open
  close_open-Same st =
      let st' : RoundState = record st { accepting_onions = false } in
      let again : Closed =
        (st, elim st.err [ none ↦ responds st.close_result | some e ↦ fails e ]) in
      let ends : Closed = elim (run_jobs w.box round st' st'.jobs) [
        | none ↦ (st', panics)
        | some st'' ↦ mix_round w service name round st''
      ] in
      either (SameEnd st) st.closed again ends refl
        (worked st' (run_jobs w.box round st' st'.jobs) (run_jobs-Same w.box round st' st'.jobs))
    where
      worked :
          (st' : RoundState) (o : Option RoundState)
          → SameIf st' o
          → SameEnd st'
              (elim o [ none ↦ (st', panics) | some st'' ↦ mix_round w service name round st'' ])
      worked st' none h = refl
      worked st' (some st'') h = mix_round-Same st'' ∙ h

pub receive_all-Same :
    (num : ℕ) (st : RoundState) (reqs : List OnionsRequest) → Same st (receive_all num st reqs).0
unfolding receive_all receive_onions
receive_all-Same num st [] = refl
receive_all-Same num st (req ∷ reqs) =
    elim (Bool-cases (ltb num (u32 (req.offset + u32 (length req.onions))))) [
      | inl over ↦ rw (receive_all, receive_onions, over) refl
      | inr fits ↦
          let st1 : RoundState =
            if st.accepting_onions then record st { jobs = st.jobs ++ (req ∷ []) } else st in
          let taken : Same st st1 =
            either (Same st) st.accepting_onions (record st { jobs = st.jobs ++ (req ∷ []) }) st
              refl refl in
          rw (receive_all, receive_onions, fits) (receive_all-Same num st1 reqs ∙ taken)
    ]

-- `none` for an outcome that is no state.
abbrev pub state_of : Outcome RoundState → Option RoundState
state_of (responds st) = some st
state_of (fails e) = none
state_of panics = none
state_of waits = none

pub begin_onions-Same : (st : RoundState) (num : ℕ) → SameIf st (state_of (begin_onions st num))
unfolding begin_onions
begin_onions-Same st num = elim (Bool-cases (st.num_incoming == 0)) [
  | inl first ↦ rw (begin_onions, first) refl
  | inr later ↦ elim (Bool-cases (st.num_incoming == num)) [
    | inl agrees ↦ rw (begin_onions, later, agrees) refl
    | inr other ↦ rw (begin_onions, later, other) tt
  ]
]
