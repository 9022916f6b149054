-- ===== src/Client/Connect/Status.antt =====
-- What the client makes of the answers of the PKGs.
use mathlib.Core.Path.{subst}
use mathlib.Core.Bool.{true≢false}
use gjallarhorn.Prelude.{
  ℕ, suc, ◌+◌, ◌≤◌, ◌≡◌, ◌≢◌, ◌↔◌, refl, sym, ap, ◌∙◌, true, List, [], ◌∷◌, Option, none, some, inl,
  inr, ◌==◌, ==_iff, arith, length, Bool-cases,
}
use gjallarhorn.Client.Connect.{
  StatusError, not_registered, invalid_signature, other_code, other_error, PkgStatus,
  not_registered_anywhere, count_one, count_stats, check_pkg_status,
}

abbrev pub All {ℓ κ} : {A : Type ℓ} → (A → Type κ) → List A → Type κ
All P [] = Unit
All P (x ∷ xs) = P x × All P xs

abbrev pub IsOk : Option StatusError → Type 0
IsOk none = Unit
IsOk (some e) = ⊥

abbrev pub IsUnregistered : Option StatusError → Type 0
IsUnregistered (some (not_registered text)) = Unit
IsUnregistered (some (invalid_signature text)) = ⊥
IsUnregistered (some (other_code text)) = ⊥
IsUnregistered (some (other_error text)) = ⊥
IsUnregistered none = ⊥

-- What it means for the two counts of a list that one of them is the number of all.
abbrev Counted : ℕ × ℕ → ℕ → Type 0 → Type 0 → Type 0
Counted counts all P Q =
    ((counts.0 ≡ all) ↔ P) × ((counts.1 ≡ all) ↔ Q) × (counts.0 + counts.1 ≤ all)

count_one-Counted :
    (e : Option StatusError) (n m all : ℕ) {P Q : Type 0}
    → Counted (n, m) all P Q
    → Counted (count_one e (n, m)) (suc all) (IsOk e × P) (IsUnregistered e × Q)
count_one-Counted none n m all (oks, bad, both) = (
  ((λ h. (tt, oks.0 (omega arith))), (λ p. ap suc (oks.1 p.1))),
  ((λ h. absurd (omega arith)), (λ q. absurd q.0)),
  omega arith,
)
count_one-Counted (some (not_registered text)) n m all (oks, bad, both) = (
  ((λ h. absurd (omega arith)), (λ p. absurd p.0)),
  ((λ h. (tt, bad.0 (omega arith))), (λ q. ap suc (bad.1 q.1))),
  omega arith,
)
count_one-Counted (some (invalid_signature text)) n m all (oks, bad, both) = (
  ((λ h. absurd (omega arith)), (λ p. absurd p.0)),
  ((λ h. absurd (omega arith)), (λ q. absurd q.0)),
  omega arith,
)
count_one-Counted (some (other_code text)) n m all (oks, bad, both) = (
  ((λ h. absurd (omega arith)), (λ p. absurd p.0)),
  ((λ h. absurd (omega arith)), (λ q. absurd q.0)),
  omega arith,
)
count_one-Counted (some (other_error text)) n m all (oks, bad, both) = (
  ((λ h. absurd (omega arith)), (λ p. absurd p.0)),
  ((λ h. absurd (omega arith)), (λ q. absurd q.0)),
  omega arith,
)

abbrev pub AllOk : List PkgStatus → Type 0
AllOk = All (λ (st : PkgStatus). IsOk st.error)

abbrev pub AllUnregistered : List PkgStatus → Type 0
AllUnregistered = All (λ (st : PkgStatus). IsUnregistered st.error)

count_stats-Counted :
    (stats : List PkgStatus)
    → Counted (count_stats stats) (length stats) (AllOk stats) (AllUnregistered stats)
unfolding count_stats
count_stats-Counted [] = (((λ h. tt), (λ h. refl)), ((λ h. tt), (λ h. refl)), omega arith)
count_stats-Counted (st ∷ stats) =
    count_one-Counted st.error (count_stats stats).0 (count_stats stats).1 (length stats)
      (count_stats-Counted stats)

pub count_stats-AllOk :
    (stats : List PkgStatus) → ((count_stats stats).0 ≡ length stats) ↔ AllOk stats
count_stats-AllOk stats = (count_stats-Counted stats).0

not-both : (stats : List PkgStatus) → AllOk stats → AllUnregistered stats → stats ≡ []
not-both [] ok bad = refl
not-both (st ∷ stats) (ok, oks) (bad, bads) = absurd (neither st.error ok bad)
  where
    neither : (e : Option StatusError) → IsOk e → IsUnregistered e → ⊥
    neither none ok bad = bad
    neither (some e) ok bad = ok

-- The check passes exactly if there is a PKG and none gives an error; and it tells the user that the
-- name is not registered exactly if every PKG says so, which is also said if there is none.
pub check_pkg_status-AllOk :
    (stats : List PkgStatus)
    → (((check_pkg_status stats).0 ≡ true) ↔ ((stats ≢ []) × AllOk stats))
      × (((check_pkg_status stats).1 ≡ not_registered_anywhere ∷ []) ↔ AllUnregistered stats)
unfolding check_pkg_status
check_pkg_status-AllOk stats =
    let (oks, bads, both) = count_stats-Counted stats in
    let all_bad = ==_iff (count_stats stats).1 (length stats) in
    let all_ok = ==_iff (count_stats stats).0 (length stats) in
    elim (Bool-cases ((count_stats stats).1 == length stats)) [
      | inl here ↦
          rw (check_pkg_status, here)
            (
              ((λ h. cc), (λ p. absurd (p.0 (not-both stats p.1 (bads.0 (all_bad.0 here)))))),
              ((λ h. bads.0 (all_bad.0 here)), (λ q. refl)),
            )
      | inr less ↦
          let some_good : ¬ AllUnregistered stats =
            λ q. true≢false (sym (all_bad.1 (bads.1 q)) ∙ less) in
          elim (Bool-cases ((count_stats stats).0 == length stats)) [
            | inl here ↦
                rw (check_pkg_status, less, here)
                  (
                    (
                      (λ h. (
                        (λ e. some_good (subst AllUnregistered (sym e) tt)),
                        oks.0 (all_ok.0 here),
                      )),
                      (λ p. refl),
                    ),
                    ((λ h. cc), (λ q. absurd (some_good q))),
                  )
            | inr bad ↦
                rw (check_pkg_status, less, bad)
                  (
                    ((λ h. cc), (λ p. absurd (true≢false (sym (all_ok.1 (oks.1 p.1)) ∙ bad)))),
                    ((λ h. cc), (λ q. absurd (some_good q))),
                  )
          ]
    ]
