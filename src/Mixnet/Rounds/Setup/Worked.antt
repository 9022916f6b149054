-- ===== src/Mixnet/Rounds/Setup/Worked.antt =====
-- `AddOnions` and `CloseRound` of mixnet/mixnet.go keep the signatures of all rounds.
use mathlib.Core.Path.{subst}
use gjallarhorn.Prelude.{
  ℕ, ◌≡◌, refl, sym, ap, ◌∙◌, none, some, some_inj, List, Option-cases, Bool-cases, inl, inr,
}
use gjallarhorn.Prelude.Bytes.{Bytes, bytes_eq}
use gjallarhorn.Prelude.Maps.{lookup, lookup-insert}
use gjallarhorn.Mixnet.Rounds.{
  Outcome, responds, fails, panics, waits, RoundState, Server, same_round, same_round_iff,
  service_round_eq, get_round, Peer, auth_prev, OnionsRequest,
}
use gjallarhorn.Mixnet.Rounds.Onions.{
  StreamMetadata, begin_onions, receive_all, and_then, put_round, add_begun, add_parsed,
}
use gjallarhorn.Mixnet.Rounds.Closing.{World, close_open, close_round}
use gjallarhorn.Mixnet.Rounds.Closing.Signature.{
  Same, SameIf, state_of, close_open-Same, receive_all-Same, begin_onions-Same,
}
use gjallarhorn.Mixnet.Rounds.Setup.Signed.{HasSigned}

module _ (name : Bytes) (round : ℕ) (sig : Bytes) where
  -- The two handlers that change a round and not its signature.
  put_round-HasSigned :
      (srv : Server) (other : Bytes) (number : ℕ) (old new : RoundState)
      → get_round srv other number ≡ some old
      → Same old new
      → HasSigned name round sig srv
      → HasSigned name round sig (put_round srv other number new)
  unfolding get_round
  put_round-HasSigned srv other number old new found same (st, there, signed) =
      elim (Bool-cases (same_round (other, number) (name, round))) [
        | inl here ↦
            let e = (same_round_iff (other, number) (name, round)).0 here in
            let mine : old ≡ st =
              some_inj (sym found ∙ subst (λ k. lookup k srv.rounds ≡ some st) (sym e) there) in
            (
              new,
              lookup-insert (other, number) (name, round) new srv.rounds ∙ rw here refl,
              same ∙ (ap (λ (s : RoundState). s.settings_signature) mine ∙ signed),
            )
        | inr differ ↦ (
          st,
          lookup-insert (other, number) (name, round) new srv.rounds ∙ rw differ there,
          signed,
        )
      ]

  pub close_round-HasSigned :
      (w : World) (srv : Server) (peer : Peer) (other : Bytes) (number : ℕ)
      → HasSigned name round sig srv
      → HasSigned name round sig (close_round w srv peer other number).0
  unfolding close_round
  close_round-HasSigned w srv peer other number h =
      elim (Option-cases (get_round srv other number)) [
        | inl missing ↦ rw (close_round, missing) h
        | inr (old, found) ↦ rw (close_round, found) (closes old found (auth_prev srv peer old))
      ]
    where
      closes :
          (old : RoundState)
          → get_round srv other number ≡ some old
          → (o : Outcome (Unit {0}))
          → HasSigned name round sig
              (elim o as (λ x. Server × Outcome Bytes) [
                | fails e ↦ (srv, fails e)
                | panics ↦ (srv, panics)
                | waits ↦ (srv, waits)
                | responds u ↦ elim (lookup other srv.services) as (λ x. Server × Outcome Bytes) [
                  | none ↦ (srv, panics)
                  | some service ↦
                      let (st', out) = close_open w service other number old in
                      (put_round srv other number st', out)
                ]
              ]).0
      closes old found (fails e) = h
      closes old found panics = h
      closes old found Outcome.waits = h
      closes old found (responds u) = elim (Option-cases (lookup other srv.services)) [
        | inl unknown ↦ rw unknown h
        | inr (service, known) ↦ rw known (
            put_round-HasSigned srv other number old (close_open w service other number old).0 found
              (close_open-Same w service other number old) h)
      ]

  add_begun-HasSigned :
      (srv : Server) (md : StreamMetadata) (reqs : List OnionsRequest) (old : RoundState)
      (o : Outcome RoundState)
      → get_round srv md.service md.round ≡ some old
      → SameIf old (state_of o)
      → HasSigned name round sig srv
      → HasSigned name round sig (add_begun srv md reqs o).0
  add_begun-HasSigned srv md reqs old (fails e) found same h = h
  add_begun-HasSigned srv md reqs old panics found same h = h
  add_begun-HasSigned srv md reqs old Outcome.waits found same h = h
  add_begun-HasSigned srv md reqs old (responds st) found same h =
      put_round-HasSigned srv md.service md.round old (receive_all md.num_incoming st reqs).0 found
        (receive_all-Same md.num_incoming st reqs ∙ same) h

  pub add_parsed-HasSigned :
      (srv : Server) (peer : Peer) (reqs : List OnionsRequest) (o : Outcome StreamMetadata)
      → HasSigned name round sig srv
      → HasSigned name round sig (add_parsed srv peer reqs o).0
  add_parsed-HasSigned srv peer reqs (fails e) h = h
  add_parsed-HasSigned srv peer reqs panics h = h
  add_parsed-HasSigned srv peer reqs Outcome.waits h = h
  add_parsed-HasSigned srv peer reqs (responds md) h =
      elim (Option-cases (get_round srv md.service md.round)) [
        | inl missing ↦ rw (add_parsed, missing) h
        | inr (old, found) ↦
            rw (add_parsed, found)
              (add_begun-HasSigned srv md reqs old
                (and_then (auth_prev srv peer old) (λ u. begin_onions old md.num_incoming)) found
                (begun old (auth_prev srv peer old) md.num_incoming) h)
      ]
    where
      begun :
          (old : RoundState) (o : Outcome (Unit {0})) (num : ℕ)
          → SameIf old (state_of (and_then o (λ u. begin_onions old num)))
      begun old (fails e) num = tt
      begun old panics num = tt
      begun old Outcome.waits num = tt
      begun old (responds u) num = begin_onions-Same old num
