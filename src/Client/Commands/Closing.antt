-- ===== src/Client/Commands/Closing.antt =====
-- `/wc` closes the selected window: it is always found, and no other is touched.
use mathlib.Core.Option.{none-ne-some}
use mathlib.Core.Path.{subst}
use mathlib.Core.List.{append_assoc}
use gjallarhorn.Prelude.{
  ℕ, zero, suc, ◌+◌, ◌≡◌, ◌≢◌, ◌⊎◌, refl, sym, ap, ◌∙◌, Bool, true, false, List, [], ◌∷◌, ◌++◌,
  Option, none, some, some_inj, if◌then◌else◌, ◌==◌, arith, length, take, drop, get_elem?,
  get_elem?-append_middle, Bool-cases, inl, inr, length-append,
}
use gjallarhorn.Prelude.Bytes.{Bytes}
use gjallarhorn.Client.Active.{GuiClient, member, remove, deactivate_convo}
use gjallarhorn.Client.Windows.{
  Window, Gui, unfocus, deactivate_window, focus_main, warn, cannot_close_main,
}
use gjallarhorn.Client.Windows.Sound.{name_of, Apart, AllDistinct, IsListed, IsSound}
use gjallarhorn.Client.Windows.Steps.{focus_main-IsSound}
use gjallarhorn.Client.Windows.Talking.{deactivate_window-IsSound, member-remove}
use gjallarhorn.Client.Commands.{do_wc, last_index, remove_at, done, Handled}

-- The loop ends with the window's index, which is at least where it began.
last_index-at :
    (p : ℕ) (before ps : List ℕ) (i : ℕ) (found : Option ℕ)
    → i ≡ length before
    → ((j : ℕ) → found ≡ some j → get_elem? (before ++ ps) j ≡ some p)
    → (j : ℕ) → last_index p i found ps ≡ some j
    → get_elem? (before ++ ps) j ≡ some p
last_index-at p before [] i found e so_far j h = so_far j h
last_index-at p before (q ∷ ps) i found e so_far j h =
    subst (λ (qs : List ℕ). get_elem? qs j ≡ some p) (append_assoc before (q ∷ []) ps)
      (last_index-at p (before ++ (q ∷ [])) ps (i + 1) (if q == p then some i else found)
        (omega (arith, length-append before (q ∷ [])))
        (λ k g.
          subst (λ (qs : List ℕ). get_elem? qs k ≡ some p) (sym (append_assoc before (q ∷ []) ps))
            (at (q == p) k refl g))
        j h)
  where
    at :
        (b : Bool) (k : ℕ)
        → (q == p) ≡ b
        → (if b then some i else found) ≡ some k
        → get_elem? (before ++ (q ∷ ps)) k ≡ some p
    at false k d g = so_far k g
    at true k d g =
        let here : q ≡ p = ground arith in
        subst (λ r. get_elem? (before ++ (q ∷ ps)) r ≡ some p) (sym e ∙ some_inj g)
          (get_elem?-append_middle before q ps ∙ ap some here)

last_index-found :
    (p : ℕ) (ps : List ℕ) (i : ℕ) (found : Option ℕ)
    → (found ≢ none) ⊎ (member p ps ≡ true)
    → (j : ℕ) × (last_index p i found ps ≡ some j)
last_index-found p [] i none h = absurd (elim h [ inl a ↦ a refl | inr b ↦ cc ])
last_index-found p [] i (some j) h = (j, refl)
last_index-found p (q ∷ ps) i found h = elim (Bool-cases (q == p)) [
  | inl here ↦ rw here (last_index-found p ps (i + 1) (some i) (inl (λ e. none-ne-some i (sym e))))
  | inr on ↦
      rw on
        (last_index-found p ps (i + 1) found (elim h [ inl a ↦ inl a | inr m ↦ inr (rw on at m) ]))
]

member-remove_at : (q i : ℕ) (ps : List ℕ) → member q (remove_at i ps) ≡ true → member q ps ≡ true
member-remove_at q zero [] m = m
member-remove_at q zero (r ∷ ps) m = ground arith
member-remove_at q (suc i) [] m = m
member-remove_at q (suc i) (r ∷ ps) m = elim (Bool-cases (r == q)) [
  | inl here ↦ rw here
  | inr on ↦ rw on (member-remove_at q i ps (rw on at m))
]

module _ (store : List Window) where
  Apart-remove_at :
      (n : Option Bytes) (i : ℕ) (ps : List ℕ) → Apart store n ps → Apart store n (remove_at i ps)
  Apart-remove_at n zero [] a = tt
  Apart-remove_at n zero (r ∷ ps) (d, a) = a
  Apart-remove_at n (suc i) [] a = tt
  Apart-remove_at n (suc i) (r ∷ ps) (d, a) = (d, Apart-remove_at n i ps a)

  AllDistinct-remove_at :
      (i : ℕ) (ps : List ℕ) → AllDistinct store ps → AllDistinct store (remove_at i ps)
  AllDistinct-remove_at zero [] d = tt
  AllDistinct-remove_at zero (r ∷ ps) (a, d) = d
  AllDistinct-remove_at (suc i) [] d = tt
  AllDistinct-remove_at (suc i) (r ∷ ps) (a, d) =
      (Apart-remove_at (name_of store r) i ps a, AllDistinct-remove_at i ps d)

-- What is left when a window that is not active is closed.
close-IsListed :
    (gui : Gui) (p i : ℕ)
    → IsListed gui
    → get_elem? gui.conversations i ≡ some p
    → IsListed (record gui { conversations = remove_at i gui.conversations })
close-IsListed gui p i s e = record {
  allocated = λ q m. s.allocated q (member-remove_at q i gui.conversations m);
  distinct = AllDistinct-remove_at gui.store i gui.conversations s.distinct;
  talking = s.talking;
  few = s.few;
  focus = s.focus;
}

member-remove_self : (p : ℕ) (ps : List ℕ) → member p (remove p ps) ≡ false
member-remove_self p ps = elim (Bool-cases (member p (remove p ps))) [
  | inl bad ↦ let (m, d) = member-remove p p ps bad in ground arith
  | inr fine ↦ fine
]

deactivate_window-idle :
    (p : ℕ) (gui : Gui) → member p (deactivate_window p gui).0.table.active ≡ false
unfolding deactivate_window deactivate_convo
deactivate_window-idle p gui = elim (Bool-cases (member p gui.table.active)) [
  | inl there ↦ rw (deactivate_convo, there) (member-remove_self p gui.table.active)
  | inr away ↦ rw (deactivate_convo, away) away
]

-- A handler that goes on leaves sound windows.
abbrev pub Keeps : Handled → Type 0
Keeps (done (gui, effects)) = IsSound gui
Keeps Handled.quits = Unit {0}
Keeps Handled.panics = Unit {0}

pub close-Keeps :
    (gui : Gui) (p : ℕ)
    → IsSound gui
    → gui.selected_convo ≡ some p
    → (let gui' = (deactivate_window p gui).0 in
        Keeps (elim (last_index p 0 none gui'.conversations) [
          | none ↦ Handled.panics
          | some i ↦
              done (focus_main (record gui' { conversations = remove_at i gui'.conversations }), [])
        ]))
unfolding deactivate_window
close-Keeps gui p s selected =
    let gui' = (deactivate_window p gui).0 in
    let (j, found) = last_index-found p gui'.conversations 0 none (inr (s.chosen p selected)) in
    let at =
      last_index-at p [] gui'.conversations 0 none refl (λ k h. absurd (none-ne-some k h)) j
        found in
    rw found (
      focus_main-IsSound (record gui' { conversations = remove_at j gui'.conversations })
        (close-IsListed gui' p j (deactivate_window-IsSound p gui s).listed at))

module _ (store : List Window) where
  Apart-at :
      (n : Option Bytes) (ps : List ℕ) (j : ℕ) {p : ℕ}
      → Apart store n ps
      → get_elem? ps j ≡ some p
      → n ≢ name_of store p
  Apart-at n [] j a e = absurd (none-ne-some _ e)
  Apart-at n (r ∷ ps) zero (d, a) e = λ same. d (same ∙ ap (name_of store) (sym (some_inj e)))
  Apart-at n (r ∷ ps) (suc j) (d, a) e = Apart-at n ps j a e

  Apart-not_member : (p : ℕ) (ps : List ℕ) → Apart store (name_of store p) ps → member p ps ≡ false
  Apart-not_member p [] a = refl
  Apart-not_member p (r ∷ ps) (d, a) = elim (Bool-cases (r == p)) [
    | inl here ↦ let e : r ≡ p = ground arith in absurd (d (ap (name_of store) (sym e)))
    | inr other ↦ rw other (Apart-not_member p ps a)
  ]

  removed_gone :
      (ps : List ℕ) (j p : ℕ)
      → AllDistinct store ps
      → get_elem? ps j ≡ some p
      → member p (remove_at j ps) ≡ false
  removed_gone [] j p d e = absurd (none-ne-some p e)
  removed_gone (r ∷ ps) zero p (a, d) e =
      Apart-not_member p ps (subst (λ q. Apart store (name_of store q) ps) (some_inj e) a)
  removed_gone (r ∷ ps) (suc j) p (a, d) e = elim (Bool-cases (r == p)) [
    | inl here ↦
        let same : r ≡ p = ground arith in
        absurd (Apart-at (name_of store r) ps j a e (ap (name_of store) same))
    | inr other ↦ rw other (removed_gone ps j p d e)
  ]

split_at :
    (ps : List ℕ) (j p : ℕ) → get_elem? ps j ≡ some p → ps ≡ take j ps ++ (p ∷ drop (suc j) ps)
split_at [] j p e = absurd (none-ne-some p e)
split_at (r ∷ ps) zero p e = ap (λ q. q ∷ ps) (some_inj e)
split_at (r ∷ ps) (suc j) p e = ap (◌∷◌ r) (split_at ps j p e)

unfocus-kept :
    (g : Gui) (sel : Option ℕ)
    → ((unfocus sel g).conversations ≡ g.conversations) × ((unfocus sel g).table ≡ g.table)
unfocus-kept g none = (refl, refl)
unfocus-kept g (some p) = (refl, refl)

pub do_wc-closes :
    (gui : Gui) (p : ℕ)
    → IsSound gui
    → gui.selected_convo ≡ some p
    → (gui' : Gui) × (before : List ℕ) × (after : List ℕ) × (do_wc gui ≡ done (gui', []))
      × (gui.conversations ≡ before ++ (p ∷ after))
      × (gui'.conversations ≡ before ++ after)
      × (member p gui'.conversations ≡ false)
      × (member p gui'.table.active ≡ false)
      × (gui'.selected_convo ≡ none)
unfolding do_wc deactivate_window focus_main
do_wc-closes gui p s selected =
    let gui' = (deactivate_window p gui).0 in
    let ps = gui.conversations in
    let (j, found) = last_index-found p ps 0 none (inr (s.chosen p selected)) in
    let at = last_index-at p [] ps 0 none refl (λ k h. absurd (none-ne-some k h)) j found in
    let closed = record gui' { conversations = remove_at j ps } in
    (
      focus_main closed,
      take j ps,
      drop (suc j) ps,
      ap
            (λ (o : Option ℕ). elim o [
              | none ↦ done (warn cannot_close_main gui)
              | some q ↦ elim (last_index q 0 none ps) [
                | none ↦ Handled.panics
                | some i ↦ done (
                  focus_main
                      (record (deactivate_window q gui).0 { conversations = remove_at i ps }),
                  [],
                )
              ]
            ])
            selected
          ∙ rw found,
      split_at ps j p at,
      (unfocus-kept closed closed.selected_convo).0,
      ap (member p) (unfocus-kept closed closed.selected_convo).0
          ∙ removed_gone gui.store ps j p s.listed.distinct at,
      ap (λ (t : GuiClient). member p t.active) (unfocus-kept closed closed.selected_convo).1
          ∙ deactivate_window-idle p gui,
      refl,
    )
