-- ===== src/Client/Windows/Steps.antt =====
-- The changes of the windows keep what holds of them.
use mathlib.Core.Option.{none-ne-some}
use mathlib.Core.Path.{subst}
use gjallarhorn.Prelude.{
  ℕ, ◌≡◌, ◌≢◌, ◌↔◌, refl, sym, ap, ◌∙◌, Bool, true, false, List, Option, none, some, some_inj,
  if◌then◌else◌, ◌==◌, arith, length, get_elem?,
}
use gjallarhorn.Client.Active.{member}
use gjallarhorn.Client.Windows.{
  Window, Gui, update_at, unfocus, set_focused, focus_main, focus_convo, mark_main,
}
use gjallarhorn.Client.Windows.Sound.{
  mapped, get_elem?-update_at, length-update_at, name_of, AllDistinct-same, name_of-update_at,
  IsListed, IsSound,
}

abbrev set_focus : Bool → Window → Window
set_focus b w = record w { convo = set_focused b w.convo }

-- Without the selected window's focus no window has it.
module _ (gui : Gui) (s : IsListed gui) where
  dark_at :
      (p q : ℕ) (w : Window) (b : Bool) (o : Option Window)
      → gui.selected_convo ≡ some p
      → (q == p) ≡ b
      → get_elem? gui.store q ≡ o
      → (if b then mapped (set_focus false) o else o) ≡ some w
      → w.convo.focused ≢ true
  dark_at p q w true none e d g h on = none-ne-some w h
  dark_at p q w true (some v) e d g h on =
      let off : false ≡ w.convo.focused = ap (λ (u : Window). u.convo.focused) (some_inj h) in cc
  dark_at p q w false o e d g h on =
      let same : p ≡ q = some_inj (sym e ∙ (s.focus q w (g ∙ h)).0 on) in ground arith

  unfocus-dark :
      (sel : Option ℕ) (q : ℕ) (w : Window)
      → gui.selected_convo ≡ sel
      → get_elem? (unfocus sel gui).store q ≡ some w
      → w.convo.focused ≢ true
  unfocus-dark none q w e h on = none-ne-some q (sym e ∙ (s.focus q w h).0 on)
  unfocus-dark (some p) q w e h on =
      dark_at p q w (q == p) (get_elem? gui.store q) e refl refl
        (sym (get_elem?-update_at p q (set_focus false) gui.store) ∙ h) on

  unfocus-names : (sel : Option ℕ) (q : ℕ) → name_of (unfocus sel gui).store q ≡ name_of gui.store q
  unfocus-names none q = refl
  unfocus-names (some p) q = name_of-update_at (set_focus false) (λ w. refl) p gui.store q

  length-unfocus : (sel : Option ℕ) → length (unfocus sel gui).store ≡ length gui.store
  length-unfocus none = refl
  length-unfocus (some p) = length-update_at p (set_focus false) gui.store

  unfocus-same :
      (sel : Option ℕ)
      → ((unfocus sel gui).conversations ≡ gui.conversations)
        × ((unfocus sel gui).table ≡ gui.table)
  unfocus-same none = (refl, refl)
  unfocus-same (some p) = (refl, refl)

  -- A store with the names of the old one, in which only a listed window may have the focus.
  relist :
      (store : List Window) (sel : Option ℕ) (unread : Bool)
      → length store ≡ length gui.store
      → ((q : ℕ) → name_of store q ≡ name_of gui.store q)
      → ((p : ℕ) → sel ≡ some p → member p gui.conversations ≡ true)
      → ((q : ℕ) (w : Window)
          → get_elem? store q ≡ some w
          → (w.convo.focused ≡ true) ↔ (sel ≡ some q))
      → IsSound (record gui { store = store; selected_convo = sel; main_unread = unread })
  relist store sel unread size names there focus = record {
    listed = record {
      allocated = λ p h. omega (arith, s.allocated p h);
      distinct = AllDistinct-same gui.store store names gui.conversations s.distinct;
      talking = λ p h. omega (arith, s.talking p h);
      few = s.few;
      focus = focus;
    };
    chosen = there;
  }

  unfocus-eta : (sel : Option ℕ) → unfocus sel gui ≡ record gui { store = (unfocus sel gui).store }
  unfocus-eta none = refl
  unfocus-eta (some p) = refl

  pub focus_main-IsSound : IsSound (focus_main gui)
  unfolding focus_main
  focus_main-IsSound =
      let sel = gui.selected_convo in
      let main : Gui → Gui = λ g. record g { selected_convo = none; main_unread = false } in
      subst IsSound (ap main (sym (unfocus-eta sel))) (
        relist (unfocus sel gui).store none false (length-unfocus sel) (unfocus-names sel)
          (λ p e. absurd (none-ne-some p e))
          (λ q w h.
            (λ on. absurd (unfocus-dark sel q w refl h on), λ e. absurd (none-ne-some q e))))

  abbrev lit : Window → Window
  lit w = record w { convo = record w.convo { unread = false; focused = true } }

  lit_at :
      (p q : ℕ) (w : Window) (b : Bool) (o : Option Window)
      → (q == p) ≡ b
      → get_elem? (unfocus gui.selected_convo gui).store q ≡ o
      → (if b then mapped lit o else o) ≡ some w
      → (w.convo.focused ≡ true) ↔ (some p ≡ some q)
  lit_at p q w true none d g h = absurd (none-ne-some w h)
  lit_at p q w true (some v) d g h =
      let on : true ≡ w.convo.focused = ap (λ (u : Window). u.convo.focused) (some_inj h) in
      let same : p ≡ q = ground arith in (λ e. ap some same, λ e. sym on)
  lit_at p q w false o d g h = (
    λ on. absurd (unfocus-dark gui.selected_convo q w refl (g ∙ h) on),
    λ e. let same : p ≡ q = some_inj e in ground arith,
  )

  pub focus_convo-IsSound :
      (p : ℕ) → member p gui.conversations ≡ true → IsSound (focus_convo p gui)
  unfolding focus_convo
  focus_convo-IsSound p there =
      let sel = gui.selected_convo in
      let store = (unfocus sel gui).store in
      let lights : Gui → Gui =
        λ g. record g { selected_convo = some p; store = update_at p lit g.store } in
      subst IsSound (ap lights (sym (unfocus-eta sel))) (
        relist (update_at p lit store) (some p) gui.main_unread
          (length-update_at p lit store ∙ length-unfocus sel)
          (λ q. name_of-update_at lit (λ w. refl) p store q ∙ unfocus-names sel q)
          (λ q e. subst (λ r. member r gui.conversations ≡ true) (some_inj e) there)
          (λ q w h.
            lit_at p q w (q == p) (get_elem? store q) refl refl
              (sym (get_elem?-update_at p q lit store) ∙ h)))

module _ (gui : Gui) (s : IsSound gui) where
  pub mark_main-IsSound : IsSound (mark_main gui)
  unfolding mark_main
  mark_main-IsSound = marked gui.selected_convo
    where
      marked :
          (o : Option ℕ)
          → IsSound (elim o [ none ↦ gui | some p ↦ record gui { main_unread = true } ])
      marked none = s
      marked (some p) = record {
        listed = record {
          allocated = s.listed.allocated;
          distinct = s.listed.distinct;
          talking = s.listed.talking;
          few = s.listed.few;
          focus = s.listed.focus;
        };
        chosen = s.chosen;
      }
