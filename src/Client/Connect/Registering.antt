-- ===== src/Client/Connect/Registering.antt =====
-- Registering with all PKGs, against the check of their answers.
use mathlib.Core.Bool.{true≢false}
use gjallarhorn.Prelude.{
  ℕ, suc, ◌≡◌, ◌≢◌, refl, sym, ap, ◌∙◌, Bool, true, false, ◌&&◌, not, List, [], ◌∷◌, Option, none,
  some, inl, inr, if◌then◌else◌, ◌==◌, ==_iff, length, map, length-map, Bool-cases,
}
use gjallarhorn.Prelude.Bytes.{Bytes}
use gjallarhorn.Client.Connect.{
  StatusError, not_registered, invalid_signature, other_code, other_error, PkgStatus, count_one,
  count_stats, check_pkg_status, register_result, register_one, register_stats, register_all,
  ensure_connected, convo, add_friend, dialing,
}
use gjallarhorn.Client.Connect.Status.{check_pkg_status-AllOk, count_stats-AllOk}

module _ (register : Bytes → Option Bytes) where
  -- What a PKG answers after `RegisterAll`: nothing is wrong, where it could register the user.
  abbrev pub answer_after : Option Bytes → StatusError → Option StatusError
  answer_after none e = none
  answer_after (some err) e = some e

  abbrev pub settled : Bytes → Option StatusError → Option StatusError
  settled address none = none
  settled address (some (not_registered text)) =
      answer_after (register address) (not_registered text)
  settled address (some (invalid_signature text)) = some (invalid_signature text)
  settled address (some (other_code text)) = some (other_code text)
  settled address (some (other_error text)) = some (other_error text)

  abbrev pub settle : PkgStatus → PkgStatus
  settle st = record st { error = settled st.address st.error }

  counted_after :
      (address : Bytes) (e : Option StatusError) (n m : ℕ)
      → (if (register_one register address e).1 then suc n else n)
        ≡ (count_one (settled address e) (n, m)).0
  counted_after address none n m = refl
  counted_after address (some (not_registered text)) n m = tried (register address)
    where
      tried :
          (r : Option Bytes)
          → (if (register_result address r).1 then suc n else n)
            ≡ (count_one (answer_after r (not_registered text)) (n, m)).0
      tried none = refl
      tried (some err) = refl
  counted_after address (some (invalid_signature text)) n m = refl
  counted_after address (some (other_code text)) n m = refl
  counted_after address (some (other_error text)) n m = refl

  register_stats-count_stats :
      (stats : List PkgStatus)
      → (register_stats register stats).1 ≡ (count_stats (map settle stats)).0
  unfolding register_stats count_stats
  register_stats-count_stats [] = refl
  register_stats-count_stats (st ∷ stats) =
      let rest = count_stats (map settle stats) in
      ap (λ k. if (register_one register st.address st.error).1 then suc k else k)
        (register_stats-count_stats stats)
      ∙ counted_after st.address st.error rest.0 rest.1

  left_some : (stats : List PkgStatus) → stats ≢ [] → map settle stats ≢ []
  left_some [] some_pkg e = some_pkg refl
  left_some (st ∷ stats) some_pkg e = cc

  -- All are registered in the end exactly if the check passes on their answers afterwards.
  all_registered :
      (stats : List PkgStatus)
      → stats ≢ []
      → ((register_stats register stats).1 == length stats)
        ≡ (check_pkg_status (map settle stats)).0
  all_registered stats some_pkg =
      let after = map settle stats in
      let passes = (check_pkg_status-AllOk after).0 in
      let oks = count_stats-AllOk after in
      let all = ==_iff (register_stats register stats).1 (length stats) in
      let same = register_stats-count_stats stats in
      let long : length after ≡ length stats = length-map settle stats in
      elim (Bool-cases ((register_stats register stats).1 == length stats)) [
        | inl here ↦
            let good = oks.0 (sym same ∙ all.0 here ∙ sym long) in
            here ∙ sym (passes.1 (left_some stats some_pkg, good))
        | inr less ↦ elim (Bool-cases (check_pkg_status after).0) [
          | inl passed ↦
              let full : (register_stats register stats).1 ≡ length stats =
                same ∙ oks.1 (passes.0 passed).1 ∙ long in
              absurd (true≢false (sym (all.1 full) ∙ less))
          | inr failed ↦ less ∙ sym failed
        ]
      ]

  -- If there is a PKG: `RegisterAll` starts the three connection loops, unless they were started
  -- before, if the check would pass on the answers that the PKGs give afterwards; else it starts none
  -- and leaves it open whether they start later. Each loop is started at most once.
  pub register_all-check_pkg_status :
      (stats : List PkgStatus) (once : Bool)
      → stats ≢ []
      → ((register_all register stats once).0
          ≡ (if (check_pkg_status (map settle stats)).0 then true else once))
        × ((register_all register stats once).1 ≡ (
            if (check_pkg_status (map settle stats)).0 && not once
            then convo ∷ add_friend ∷ dialing ∷ []
            else []))
  unfolding register_all ensure_connected
  register_all-check_pkg_status stats once some_pkg =
      let e = all_registered stats some_pkg in
      elim (Bool-cases (check_pkg_status (map settle stats)).0) [
        | inl good ↦ rw (register_all, e, good) (refl, started once)
        | inr bad ↦ rw (register_all, e, bad) (refl, refl)
      ]
    where
      started :
          (b : Bool)
          → (if b then [] else convo ∷ add_friend ∷ dialing ∷ [])
            ≡ (if true && not b then convo ∷ add_friend ∷ dialing ∷ [] else [])
      started true = refl
      started false = refl
