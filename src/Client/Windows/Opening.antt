-- ===== src/Client/Windows/Opening.antt =====
-- `getOrCreateConvo` finds a window by its name, or makes the only one of that name.
use mathlib.Core.Option.{none-ne-some}
use mathlib.Core.Path.{subst}
use gjallarhorn.Prelude.{
  ℕ, ◌<◌, ◌≡◌, ◌≢◌, ◌↔◌, ◌⊎◌, refl, sym, ap, ◌∙◌, Bool, true, false, List, [], ◌∷◌, ◌++◌, Option,
  none, some, some_inj, ltb, ◌==◌, arith, length, get_elem?, Bool-cases, Option-cases, inl, inr,
  length-append, get_elem?-append_left, get_elem?-append_end, get_elem?-lt_length,
}
use gjallarhorn.Prelude.Bytes.{Bytes, bytes_equal_iff}
use gjallarhorn.Conversation.{init}
use gjallarhorn.Client.Active.{member}
use gjallarhorn.Client.Windows.{Window, Gui, find_convo, is_named, get_or_create_convo}
use gjallarhorn.Client.Windows.Sound.{mapped, name_of, Apart, AllDistinct, IsSound}

is_named-name_of :
    (name : Bytes) (store : List Window) (p : ℕ)
    → (is_named name (get_elem? store p) ≡ true) ↔ (name_of store p ≡ some name)
is_named-name_of name store p = at (get_elem? store p)
  where
    at :
        (o : Option Window)
        → (is_named name o ≡ true) ↔ (mapped (λ (w : Window). w.convo.peer_username) o ≡ some name)
    at none = ground arith
    at (some w) = ground (arith, bytes_equal_iff w.convo.peer_username name)

module _ (name : Bytes) (store : List Window) where
  find-some :
      (ps : List ℕ) (p : ℕ)
      → find_convo name store ps ≡ some p
      → (member p ps ≡ true) × (name_of store p ≡ some name)
  unfolding find_convo
  find-some [] p h = absurd (none-ne-some p h)
  find-some (q ∷ ps) p h = elim (Bool-cases (is_named name (get_elem? store q))) [
    | inl here ↦
        let e : q ≡ p = some_inj (rw here at h) in
        (
          ground arith,
          subst (λ r. name_of store r ≡ some name) e ((is_named-name_of name store q).0 here),
        )
    | inr on ↦ let (m, n) = find-some ps p (rw on at h) in (ground arith, n)
  ]

  find-none :
      (ps : List ℕ) (p : ℕ)
      → find_convo name store ps ≡ none
      → member p ps ≡ true
      → name_of store p ≢ some name
  unfolding find_convo
  find-none [] p h m n = cc
  find-none (q ∷ ps) p h m n = elim (Bool-cases (is_named name (get_elem? store q))) [
    | inl here ↦ none-ne-some q (sym (rw here at h))
    | inr on ↦ elim (Bool-cases (q == p)) [
      | inl e ↦
          let same : q ≡ p = ground arith in
          let here =
            (is_named-name_of name store q).1
              (subst (λ r. name_of store r ≡ some name) (sym same) n) in
          cc
      | inr ne ↦ find-none ps p (rw on at h) (rw ne at m) n
    ]
  ]

member-append :
    (q p : ℕ) (ps : List ℕ) → member q (ps ++ (p ∷ [])) ≡ true → (member q ps ≡ true) ⊎ (q ≡ p)
member-append q p [] m = ground arith
member-append q p (r ∷ ps) m = elim (Bool-cases (r == q)) [
  | inl here ↦ inl (rw here)
  | inr on ↦ elim (member-append q p ps (rw on at m)) [ inl a ↦ inl (rw on a) | inr e ↦ inr e ]
]

member-append_left : (q p : ℕ) (ps : List ℕ) → member q ps ≡ true → member q (ps ++ (p ∷ [])) ≡ true
member-append_left q p [] m = cc
member-append_left q p (r ∷ ps) m = elim (Bool-cases (r == q)) [
  | inl here ↦ rw here
  | inr on ↦ rw on (member-append_left q p ps (rw on at m))
]

pub member-append_end : (p : ℕ) (ps : List ℕ) → member p (ps ++ (p ∷ [])) ≡ true
member-append_end p [] = ground arith
member-append_end p (r ∷ ps) = ground (arith, member-append_end p ps)

module _ (store : List Window) (w : Window) where
  name_of-old : (q : ℕ) → q < length store → name_of (store ++ (w ∷ [])) q ≡ name_of store q
  name_of-old q lt =
      ap (mapped (λ (w : Window). w.convo.peer_username))
        (get_elem?-append_left store (w ∷ []) q lt)

  name_of-new : name_of (store ++ (w ∷ [])) (length store) ≡ some w.convo.peer_username
  name_of-new = ap (mapped (λ (w : Window). w.convo.peer_username)) (get_elem?-append_end store w)

  Apart-append :
      (n : Option Bytes) (ps : List ℕ)
      → ((q : ℕ) → member q ps ≡ true → q < length store)
      → n ≢ some w.convo.peer_username
      → Apart store n ps
      → Apart (store ++ (w ∷ [])) n (ps ++ (length store ∷ []))
  Apart-append n [] low ne a = (λ e. ne (e ∙ name_of-new), tt)
  Apart-append n (q ∷ ps) low ne (d, a) = (
    λ e. d (e ∙ name_of-old q (low q (ground arith))),
    Apart-append n ps (λ r m. low r (ground arith)) ne a,
  )

  AllDistinct-append :
      (ps : List ℕ)
      → ((q : ℕ) → member q ps ≡ true → q < length store)
      → ((q : ℕ) → member q ps ≡ true → name_of store q ≢ some w.convo.peer_username)
      → AllDistinct store ps
      → AllDistinct (store ++ (w ∷ [])) (ps ++ (length store ∷ []))
  AllDistinct-append [] low new d = (tt, tt)
  AllDistinct-append (q ∷ ps) low new (a, d) = (
    subst (λ n. Apart (store ++ (w ∷ [])) n (ps ++ (length store ∷ [])))
        (sym (name_of-old q (low q (ground arith))))
        (Apart-append (name_of store q) ps (λ r m. low r (ground arith)) (new q (ground arith)) a),
    AllDistinct-append ps (λ r m. low r (ground arith)) (λ r m. new r (ground arith)) d,
  )

-- What `getOrCreateConvo` leaves: the window that it gives is listed and has the name.
pub record Opened (name : Bytes) (gui : Gui) (p : ℕ) : Type 0 where
  pub sound : IsSound gui
  pub there : member p gui.conversations ≡ true
  pub named : name_of gui.store p ≡ some name

module _ (name : Bytes) (gui : Gui) (s : IsSound gui)
    (none_yet : find_convo name gui.store gui.conversations ≡ none) where
  abbrev blank : Window
  blank = record { convo = init name gui.my_name; pending_call = none }

  abbrev opened_gui : Gui
  opened_gui = record gui {
    store = gui.store ++ (blank ∷ []);
    conversations = gui.conversations ++ (length gui.store ∷ []);
  }

  focus_opened :
      (q : ℕ) (w : Window) (b : Bool)
      → ltb q (length gui.store) ≡ b
      → get_elem? (gui.store ++ (blank ∷ [])) q ≡ some w
      → (w.convo.focused ≡ true) ↔ (gui.selected_convo ≡ some q)
  unfolding init
  focus_opened q w true lt h =
      s.listed.focus q w (sym (get_elem?-append_left gui.store (blank ∷ []) q (ground arith)) ∙ h)
  focus_opened q w false ge h =
      let lt = get_elem?-lt_length (gui.store ++ (blank ∷ [])) q h in
      let e : q ≡ length gui.store = ground (arith, length-append gui.store (blank ∷ [])) in
      let new : blank ≡ w = some_inj (
        sym (get_elem?-append_end gui.store blank)
        ∙ ap (get_elem? (gui.store ++ (blank ∷ []))) (sym e)
        ∙ h) in
      let dark : false ≡ w.convo.focused = ap (λ (v : Window). v.convo.focused) new in
      (λ on. cc, λ sel. absurd (let low = s.listed.allocated q (s.chosen q sel) in ground arith))

  created-Opened : Opened name opened_gui (length gui.store)
  unfolding init
  created-Opened = record {
    sound = record {
      listed = record {
        allocated = λ q m. elim (member-append q (length gui.store) gui.conversations m) [
          | inl old ↦ omega (arith, s.listed.allocated q old, length-append gui.store (blank ∷ []))
          | inr e ↦ omega (arith, length-append gui.store (blank ∷ []))
        ];
        distinct =
            AllDistinct-append gui.store blank gui.conversations s.listed.allocated
              (λ q m. find-none name gui.store gui.conversations q none_yet m) s.listed.distinct;
        talking = λ q m. omega (arith, s.listed.talking q m, length-append gui.store (blank ∷ []));
        few = s.listed.few;
        focus = λ q w h. focus_opened q w (ltb q (length gui.store)) refl h;
      };
      chosen = λ q e. member-append_left q (length gui.store) gui.conversations (s.chosen q e);
    };
    there = member-append_end (length gui.store) gui.conversations;
    named = name_of-new gui.store blank;
  }

-- `getOrCreateConvo` keeps the windows sound, and gives a listed window with the name; since names
-- are distinct it is the only one.
pub get_or_create_convo-Opened :
    (name : Bytes) (gui : Gui)
    → IsSound gui
    → let (gui', p) = get_or_create_convo name gui in Opened name gui' p
unfolding get_or_create_convo
get_or_create_convo-Opened name gui s =
    elim (Option-cases (find_convo name gui.store gui.conversations)) [
      | inl new ↦ rw (get_or_create_convo, new) (created-Opened name gui s new)
      | inr (p, old) ↦
          let (m, n) = find-some name gui.store gui.conversations p old in
          rw (get_or_create_convo, old) (record { sound = s; there = m; named = n })
    ]
