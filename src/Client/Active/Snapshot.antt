-- ===== src/Client/Active/Snapshot.antt =====
-- `Replies` uses the conversations that were active when the round's messages were made, whatever
-- happens in between.
use mathlib.Core.Option.{none-ne-some}
use gjallarhorn.Prelude.{
  ℕ, zero, suc, ◌+◌, ◌-◌, ◌≤◌, ◌≡◌, refl, ap, ◌∙◌, false, List, [], ◌∷◌, map, Option, none, some,
  some_inj, ltb, ◌==◌, arith, Bool-cases, inl, inr, length, get_elem?, get_elem?-some,
  get_elem?-append_some, get_elem?-map, nat_eq,
}
use gjallarhorn.Prelude.Maps.{lookup, lookup-insert, lookup-insert_same, lookup-delete}
use gjallarhorn.Prelude.Bytes.{Bytes}
use gjallarhorn.Convo.{DeadDropMessage}
use gjallarhorn.Client.Active.{
  GuiClient, member, activate_convo, deactivate_convo, cover, outgoing, reply_from, pending,
  replies, Reaches, Reaches-bounded,
}

record Given (j : ℕ) (ks : List ℕ) (rs : List (Option Bytes)) (given : List (ℕ × Option Bytes))
    : Type 0 where
  pub result : reply_from j ks rs ≡ some given
  pub count : length given ≡ length ks
  pub at :
      (i k : ℕ)
      → get_elem? ks i ≡ some k
      → (r : Option Bytes) × (get_elem? rs (j + i) ≡ some r) × (get_elem? given i ≡ some (k, r))

reply_from-Given :
    (j : ℕ) (ks : List ℕ) (rs : List (Option Bytes))
    → j + length ks ≤ length rs
    → (given : List (ℕ × Option Bytes)) × Given j ks rs given
unfolding reply_from
reply_from-Given j [] rs h =
    ([], record { result = refl; count = refl; at = λ i k e. absurd (none-ne-some k e) })
reply_from-Given j (k ∷ ks) rs h =
    let (r, here) = get_elem?-some rs j (omega arith) in
    let (given, g) = reply_from-Given (j + 1) ks rs (omega arith) in
    (
      (k, r) ∷ given,
      record {
        result = rw (reply_from, here, g.result);
        count = ap suc g.count;
        at = found r given here g;
      },
    )
  where
    found :
        (r : Option Bytes) (given : List (ℕ × Option Bytes))
        → get_elem? rs j ≡ some r
        → Given (j + 1) ks rs given
        → (i l : ℕ) → get_elem? (k ∷ ks) i ≡ some l
        → (q : Option Bytes) × (get_elem? rs (j + i) ≡ some q)
          × (get_elem? ((k, r) ∷ given) i ≡ some (l, q))
    found r given here g zero l e =
        let same : j + 0 ≡ j = omega arith in (r, rw same here, rw (some_inj e))
    found r given here g (suc i) l e =
        let next : j + suc i ≡ j + 1 + i = omega arith in rw next (g.at i l e)

-- What may happen while a round is out: conversations start and end, and other rounds go by.
pub data Between (round : ℕ) : GuiClient → GuiClient → Type 0 where
  at_once : (gc : GuiClient) → Between round gc gc
  starts :
      (k : ℕ) {gc gc' : GuiClient}
      → Between round gc gc'
      → Between round gc (activate_convo k gc').0
  ends :
      (k : ℕ) {gc gc' : GuiClient}
      → Between round gc gc'
      → Between round gc (deactivate_convo k gc').0
  goes_out :
      (next random : ℕ → DeadDropMessage) (other : ℕ) {gc gc' : GuiClient}
      → (other == round) ≡ false
      → Between round gc gc'
      → Between round gc (outgoing next random gc' other).0
  comes_in :
      (other : ℕ) (rs : List (Option Bytes)) {gc gc' : GuiClient}
      → (other == round) ≡ false
      → Between round gc gc'
      → Between round gc (replies gc' other rs).0

Between-pending :
    {round : ℕ} {gc gc' : GuiClient}
    → Between round gc gc'
    → lookup round gc'.pending_rounds ≡ lookup round gc.pending_rounds
unfolding activate_convo deactivate_convo outgoing replies
Between-pending (at_once gc) = refl
Between-pending {round} (starts k {gc} {gc'} b) = elim (Bool-cases (ltb (length gc'.active) 5)) [
  | inl room ↦ rw (activate_convo, room) (Between-pending b)
  | inr full ↦ rw (activate_convo, full) (Between-pending b)
]
Between-pending {round} (ends k {gc} {gc'} b) = elim (Bool-cases (member k gc'.active)) [
  | inl there ↦ rw (deactivate_convo, there) (Between-pending b)
  | inr away ↦ rw (deactivate_convo, away) (Between-pending b)
]
Between-pending {round} (goes_out next random other {gc} {gc'} differ b) =
    lookup-insert other round gc'.active gc'.pending_rounds ∙ rw differ (Between-pending b)
Between-pending {round} (comes_in other rs {gc} {gc'} differ b) =
    lookup-delete other round gc'.pending_rounds ∙ rw differ (Between-pending b)

-- With a reply for each of the five messages of a round, `Replies` does not panic, gives each
-- conversation that was active when the messages were made the reply at the place of its message,
-- and forgets the round, whichever conversations start and end and whichever other rounds go by
-- in between.
pub replies-outgoing :
    (next random : ℕ → DeadDropMessage) (round : ℕ) (gc gc' : GuiClient) (rs : List (Option Bytes))
    (i k : ℕ)
    → Reaches gc
    → Between round (outgoing next random gc round).0 gc'
    → length rs ≡ 5
    → get_elem? gc.active i ≡ some k
    → (given : List (ℕ × Option Bytes)) × (r : Option Bytes) × ((replies gc' round rs).1
        ≡ some given)
      × (length given ≡ length gc.active)
      × (lookup round (replies gc' round rs).0.pending_rounds ≡ none)
      × (get_elem? given i ≡ some (k, r))
      × (get_elem? rs i ≡ some r)
      × (get_elem? (outgoing next random gc round).1 i ≡ some (next k))
unfolding outgoing replies
replies-outgoing next random round gc gc' rs i k reached between size e =
    let (given, g) = reply_from-Given 0 gc.active rs (omega (arith, Reaches-bounded reached)) in
    let kept = Between-pending between ∙ lookup-insert_same round gc.active gc.pending_rounds in
    let (r, there, paired) = g.at i k e in
    let here : 0 + i ≡ i = omega arith in
    (
      given,
      r,
      ap (λ o. reply_from 0 (pending o) rs) kept ∙ g.result,
      g.count,
      ground (arith, lookup-delete round round gc'.pending_rounds),
      paired,
      rw here at there,
      get_elem?-append_some (map next gc.active) (cover random (5 - length gc.active)) i
          (get_elem?-map next gc.active i e),
    )
