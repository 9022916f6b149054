-- ===== src/Mixnet/Rounds/Closing/Again.antt =====
-- A closed round stays as it is.
use mathlib.Core.Option.{none-ne-some}
use mathlib.Core.Path.{subst}
use gjallarhorn.Prelude.{
  ℕ, ◌+◌, ◌==◌, some_inj, ◌≡◌, refl, ap, ◌∙◌, Bool, true, false, List, [], ◌∷◌, Option, none, some,
  if◌then◌else◌, ltb, length, Option-cases, inl, inr,
}
use gjallarhorn.Prelude.Bytes.{Bytes}
use gjallarhorn.Mixnet.Rounds.{panics, Service, RoundState, OnionsRequest}
use gjallarhorn.Mixnet.Rounds.Onions.{run_jobs, decrypt_from, decrypt_onion}
use gjallarhorn.Mixnet.Rounds.Closing.Saves.{Ended, saved, Unanswered, Saves, mix_round-Saves}
use gjallarhorn.Mixnet.Rounds.Closing.{World, Closed, mix_round, close_open}

module _ (w : World) (service : Service) (name : Bytes) (round : ℕ) where
  -- The workers write no result and no error.
  decrypt_onion-Unanswered :
      (st : RoundState) (p : ℕ) (onion : Bytes) {st' : RoundState}
      → decrypt_onion w.box round st p onion ≡ some st'
      → Unanswered st
      → Unanswered st'
  unfolding decrypt_onion
  decrypt_onion-Unanswered st p onion {st'} h u =
      written (length onion == st.incoming_onion_size) (ltb p (length st.incoming)) st.bidirectional
        (ltb p (length st.shared_keys)) _ _ _ h
    where
      kept : {a : RoundState} → Unanswered a → some a ≡ some st' → Unanswered st'
      kept u e = subst Unanswered (some_inj e) u

      written :
          (sized fits both room : Bool) (a b : List (Option Bytes)) (keys : List Bytes)
          → (if sized
              then if fits
                then if both
                  then if room then some (record st { incoming = a; shared_keys = keys }) else none
                  else some (record st { incoming = b })
                else none
              else some st)
            ≡ some st'
          → Unanswered st'
      written false fits both room a b keys h = kept u h
      written true false both room a b keys h = absurd (none-ne-some st' h)
      written true true false room a b keys h = kept u h
      written true true true false a b keys h = absurd (none-ne-some st' h)
      written true true true true a b keys h = kept u h

  decrypt_from-Unanswered :
      (st : RoundState) (p : ℕ) (onions : List Bytes) {st' : RoundState}
      → decrypt_from w.box round st p onions ≡ some st'
      → Unanswered st
      → Unanswered st'
  unfolding decrypt_from
  decrypt_from-Unanswered st p [] h u = subst Unanswered (some_inj h) u
  decrypt_from-Unanswered st p (onion ∷ onions) {st'} h u =
      elim (Option-cases (decrypt_onion w.box round st p onion)) [
        | inl e ↦ absurd (none-ne-some st' (rw (decrypt_from, e) at h))
        | inr (st1, e) ↦
            decrypt_from-Unanswered st1 (p + 1) onions (rw (decrypt_from, e) at h)
              (decrypt_onion-Unanswered st p onion e u)
      ]

  run_jobs-Unanswered :
      (st : RoundState) (jobs : List OnionsRequest) {st' : RoundState}
      → run_jobs w.box round st jobs ≡ some st'
      → Unanswered st
      → Unanswered st'
  unfolding run_jobs
  run_jobs-Unanswered st [] h u = subst Unanswered (some_inj h) u
  run_jobs-Unanswered st (req ∷ reqs) {st'} h u =
      elim (Option-cases (decrypt_from w.box round st req.offset req.onions)) [
        | inl e ↦ absurd (none-ne-some st' (rw (run_jobs, e) at h))
        | inr (st1, e) ↦
            run_jobs-Unanswered st1 reqs (rw (run_jobs, e) at h)
              (decrypt_from-Unanswered st req.offset req.onions e u)
      ]

  close_open-Saves : (st : RoundState) → Unanswered st → Saves (close_open w service name round st)
  unfolding close_open
  close_open-Saves st u ended = closing st.closed refl ended
    where
      ran :
          (o : Option RoundState)
          → run_jobs w.box round (record st { accepting_onions = false }) st.jobs ≡ o
          → Saves (elim o [
            | none ↦ (record st { accepting_onions = false }, panics)
            | some st'' ↦ mix_round w service name round st''
          ])
      ran none e ended = absurd ended
      ran (some st'') e ended =
          mix_round-Saves w service name round st''
            (run_jobs-Unanswered (record st { accepting_onions = false }) st.jobs e u) ended

      closing :
          (c : Bool)
          → st.closed ≡ c
          → Saves (
              if c
              then (st, saved st)
              else elim (run_jobs w.box round (record st { accepting_onions = false }) st.jobs) [
                | none ↦ (record st { accepting_onions = false }, panics)
                | some st'' ↦ mix_round w service name round st''
              ])
      closing true c ended = (c, refl)
      closing false c ended =
          ran (run_jobs w.box round (record st { accepting_onions = false }) st.jobs) refl ended

  -- A round that has ended, with a result or an error, gives the same to whoever closes it again,
  -- and is not changed by that; a round starts with no result and no error.
  pub close_open-again :
      (w' : World) (service' : Service) (name' : Bytes) (round' : ℕ) (st : RoundState)
      → Unanswered st
      → Ended (close_open w service name round st).1
      → close_open w' service' name' round' (close_open w service name round st).0
        ≡ close_open w service name round st
  unfolding close_open
  close_open-again w' service' name' round' st u ended =
      let (c, s) = close_open-Saves st u ended in again (close_open w service name round st) c s
    where
      again :
          (p : Closed)
          → p.0.closed ≡ true
          → saved p.0 ≡ p.1
          → close_open w' service' name' round' p.0 ≡ p
      again (st', out) c s =
          ap
            (λ b.
              if b
              then (st', saved st')
              else elim (run_jobs w'.box round' (record st' { accepting_onions = false })
                  st'.jobs) [
                    | none ↦ (record st' { accepting_onions = false }, panics)
                    | some st'' ↦ mix_round w' service' name' round' st''
                  ])
            c
          ∙ ap (λ o. (st', o)) s
