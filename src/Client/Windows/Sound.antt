-- ===== src/Client/Windows/Sound.antt =====
-- What holds of the windows all the time, and the changes that keep it.
use mathlib.Core.Option.{none-ne-some}
use mathlib.Core.Path.{subst}
use gjallarhorn.Prelude.{
  ℕ, zero, suc, ◌≤◌, ◌<◌, ◌≡◌, ◌≢◌, ◌↔◌, refl, sym, ap, ◌∙◌, Bool, true, false, List, [], ◌∷◌,
  Option, none, some, some_inj, if◌then◌else◌, ◌==◌, arith, length, get_elem?,
}
use gjallarhorn.Prelude.Bytes.{Bytes}
use gjallarhorn.Client.Active.{member}
use gjallarhorn.Client.Windows.{Window, Gui, update_at}

abbrev pub mapped {ℓ κ} : {A : Type ℓ} {B : Type κ} → (A → B) → Option A → Option B
mapped f none = none
mapped f (some a) = some (f a)

pub length-update_at {ℓ} :
    {A : Type ℓ} (i : ℕ) (f : A → A) (xs : List A) → length (update_at i f xs) ≡ length xs
length-update_at i f [] = refl
length-update_at zero f (x ∷ xs) = refl
length-update_at (suc i) f (x ∷ xs) = ap suc (length-update_at i f xs)

pub get_elem?-update_at {ℓ} :
    {A : Type ℓ} (i j : ℕ) (f : A → A) (xs : List A)
    → get_elem? (update_at i f xs) j
      ≡ (if j == i then mapped f (get_elem? xs j) else get_elem? xs j)
get_elem?-update_at i j f [] = ground arith
get_elem?-update_at zero zero f (x ∷ xs) = ground arith
get_elem?-update_at zero (suc j) f (x ∷ xs) = ground arith
get_elem?-update_at (suc i) zero f (x ∷ xs) = ground arith
get_elem?-update_at (suc i) (suc j) f (x ∷ xs) = ground (arith, get_elem?-update_at i j f xs)

abbrev pub name_of : List Window → ℕ → Option Bytes
name_of store p = mapped (λ (w : Window). w.convo.peer_username) (get_elem? store p)

-- No window of the list has this name; no two windows of the list have one name.
abbrev pub Apart : List Window → Option Bytes → List ℕ → Type 0
Apart store name [] = Unit {0}
Apart store name (p ∷ ps) = (name ≢ name_of store p) × Apart store name ps

abbrev pub AllDistinct : List Window → List ℕ → Type 0
AllDistinct store [] = Unit {0}
AllDistinct store (p ∷ ps) = Apart store (name_of store p) ps × AllDistinct store ps

-- The listed and the active windows are allocated, the listed ones are named once, at most five are
-- active, and the selected one is the only one that has the focus. An active window may be off the
-- list: a call that was under way when the user closed its window makes it active all the same.
pub record IsListed (gui : Gui) : Type 0 where
  pub allocated : (p : ℕ) → member p gui.conversations ≡ true → p < length gui.store
  pub distinct : AllDistinct gui.store gui.conversations
  pub talking : (p : ℕ) → member p gui.table.active ≡ true → p < length gui.store
  pub few : length gui.table.active ≤ 5
  pub focus :
      (p : ℕ) (w : Window)
      → get_elem? gui.store p ≡ some w
      → (w.convo.focused ≡ true) ↔ (gui.selected_convo ≡ some p)

-- The selected window is listed as well.
pub record IsSound (gui : Gui) : Type 0 where
  pub listed : IsListed gui
  pub chosen : (p : ℕ) → gui.selected_convo ≡ some p → member p gui.conversations ≡ true

module _ (store store' : List Window) (same : (p : ℕ) → name_of store' p ≡ name_of store p) where
  Apart-same : (name : Option Bytes) (ps : List ℕ) → Apart store name ps → Apart store' name ps
  Apart-same name [] a = tt
  Apart-same name (p ∷ ps) (ne, a) = (λ e. ne (e ∙ same p), Apart-same name ps a)

  pub AllDistinct-same : (ps : List ℕ) → AllDistinct store ps → AllDistinct store' ps
  AllDistinct-same [] d = tt
  AllDistinct-same (p ∷ ps) (a, d) = (
    subst (λ n. Apart store' n ps) (sym (same p)) (Apart-same (name_of store p) ps a),
    AllDistinct-same ps d,
  )

-- A change of one window that keeps its name.
module _ (f : Window → Window)
    (named : (w : Window) → (f w).convo.peer_username ≡ w.convo.peer_username) (i : ℕ)
    (store : List Window) where
  pub name_of-update_at : (p : ℕ) → name_of (update_at i f store) p ≡ name_of store p
  name_of-update_at p =
      ap (mapped (λ (w : Window). w.convo.peer_username)) (get_elem?-update_at i p f store)
      ∙ kept (p == i) (get_elem? store p)
    where
      kept :
          (b : Bool) (o : Option Window)
          → mapped (λ (w : Window). w.convo.peer_username) (if b then mapped f o else o)
            ≡ mapped (λ (w : Window). w.convo.peer_username) o
      kept false o = refl
      kept true none = refl
      kept true (some w) = ap some (named w)

-- A change of one window that keeps its name and its focus.
module _ (f : Window → Window) (i : ℕ) (gui : Gui)
    (named : (w : Window) → (f w).convo.peer_username ≡ w.convo.peer_username)
    (focused : (w : Window) → (f w).convo.focused ≡ w.convo.focused) (s : IsSound gui) where
  focus_kept :
      (p : ℕ) (b : Bool) (o : Option Window) (w : Window)
      → get_elem? gui.store p ≡ o
      → (if b then mapped f o else o) ≡ some w
      → (w.convo.focused ≡ true) ↔ (gui.selected_convo ≡ some p)
  focus_kept p false o w e h = s.listed.focus p w (e ∙ h)
  focus_kept p true none w e h = absurd (none-ne-some w h)
  focus_kept p true (some v) w e h =
      subst (λ (b : Bool). (b ≡ true) ↔ (gui.selected_convo ≡ some p))
        (sym (focused v) ∙ ap (λ (u : Window). u.convo.focused) (some_inj h)) (s.listed.focus p v e)

  pub update-IsSound : IsSound (record gui { store = update_at i f gui.store })
  update-IsSound = record {
    listed = record {
      allocated = λ p h. omega (arith, s.listed.allocated p h, length-update_at i f gui.store);
      distinct =
          AllDistinct-same gui.store (update_at i f gui.store)
            (name_of-update_at f named i gui.store) gui.conversations s.listed.distinct;
      talking = λ p h. omega (arith, s.listed.talking p h, length-update_at i f gui.store);
      few = s.listed.few;
      focus = λ p w e.
          focus_kept p (p == i) (get_elem? gui.store p) w refl
            (sym (get_elem?-update_at i p f gui.store) ∙ e);
    };
    chosen = s.chosen;
  }
