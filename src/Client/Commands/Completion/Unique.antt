-- ===== src/Client/Commands/Completion/Unique.antt =====
-- The Tab key completes exactly what can be completed in one way.
use mathlib.Core.Path.{subst}
use gjallarhorn.Prelude.{
  ◌≡◌, ◌≢◌, ◌↔◌, ◌⊎◌, refl, sym, ap, ◌∙◌, true, false, List, [], ◌∷◌, ◌++◌, if◌then◌else◌, ◌==◌,
  arith, length, take, drop, Bool-cases, inl, inr, take-append-drop,
}
use gjallarhorn.Prelude.Bytes.{Bytes, bytes_equal, bytes_equal_iff, bytes_eq}
use gjallarhorn.Client.Windows.{Gui}
use gjallarhorn.Client.Commands.{Alpenhorn, contains, commands}
use gjallarhorn.Client.Commands.Completion.{
  has_prefix, complete_prefix, remove_dupes, nothing, completes, finish, argument_choices, last_of,
  command_names, complete_words, complete_line, tab_complete,
}
use gjallarhorn.Client.Commands.Words.{split_from, split, trim_newlines}
use gjallarhorn.Prelude.Maps.{lookup}

-- One choice begins with the prefix, and `c` is the rest of it.
abbrev pub Only : Bytes → List Bytes → Bytes → Type 0
Only prefix choices c =
    (contains (prefix ++ c) choices ≡ true)
    × ((other : Bytes)
        → contains other choices ≡ true
        → has_prefix other prefix ≡ true
        → other ≡ prefix ++ c)

abbrev Once : List Bytes → Type 0
Once [] = Unit {0}
Once (x ∷ xs) = (contains x xs ≡ false) × Once xs

contains-cons :
    (x y : Bytes) (ys : List Bytes) → contains x (y ∷ ys) ≡ true → (y ≡ x) ⊎ (contains x ys ≡ true)
contains-cons x y ys h = ground (arith, bytes_equal_iff y x)

contains-complete_prefix :
    (prefix x : Bytes) (cs : List Bytes)
    → (contains x (complete_prefix prefix cs) ≡ true)
      ↔ ((contains x cs ≡ true) × (has_prefix x prefix ≡ true))
unfolding complete_prefix
contains-complete_prefix prefix x [] = ground arith
contains-complete_prefix prefix x (c ∷ cs) =
    let ih = contains-complete_prefix prefix x cs in
    elim (Bool-cases (bytes_equal c x)) [
      | inl here ↦
          let e : c ≡ x = (bytes_equal_iff c x).0 here in
          elim (Bool-cases (has_prefix c prefix)) [
            | inl p ↦
                (λ h. (rw here, subst (λ d. has_prefix d prefix ≡ true) e p), λ h. rw (p, here))
            | inr n ↦ (
              λ h. let (a, b) = ih.0 (rw n at h) in (rw here, b),
              λ h.
                  let b : has_prefix c prefix ≡ true =
                    subst (λ d. has_prefix d prefix ≡ true) (sym e) h.1 in
                  cc,
            )
          ]
      | inr on ↦ elim (Bool-cases (has_prefix c prefix)) [
        | inl p ↦ (
          λ h. let (a, b) = ih.0 (rw on at (rw p at h)) in (rw on a, b),
          λ h. rw (p, on) (ih.1 (rw on at h.0, h.1)),
        )
        | inr n ↦ (
          λ h. let (a, b) = ih.0 (rw n at h) in (rw on a, b),
          λ h. rw n (ih.1 (rw on at h.0, h.1)),
        )
      ]
    ]

contains-remove_dupes :
    (x : Bytes) (seen cs : List Bytes)
    → (contains x (remove_dupes seen cs) ≡ true)
      ↔ ((contains x cs ≡ true) × (contains x seen ≡ false))
unfolding remove_dupes
contains-remove_dupes x seen [] = (λ h. cc, λ h. h.0)
contains-remove_dupes x seen (c ∷ cs) = elim (Bool-cases (contains c seen)) [
  | inl old ↦
      let ih = contains-remove_dupes x seen cs in
      rw old (elim (Bool-cases (bytes_equal c x)) [
        | inl here ↦
            let e : c ≡ x = (bytes_equal_iff c x).0 here in
            let seen_x : contains x seen ≡ true = subst (λ d. contains d seen ≡ true) e old in
            (λ h. (rw here, (ih.0 h).1), λ h. cc)
        | inr on ↦ (λ h. rw on (ih.0 h), λ h. ih.1 (rw on at h.0, h.1))
      ])
  | inr new ↦
      let ih = contains-remove_dupes x (c ∷ seen) cs in
      rw new (elim (Bool-cases (bytes_equal c x)) [
        | inl here ↦
            let e : c ≡ x = (bytes_equal_iff c x).0 here in
            (λ h. (rw here, subst (λ d. contains d seen ≡ false) e new), λ h. rw here)
        | inr on ↦ (
          λ h. let (a, b) = ih.0 (rw on at h) in (rw on a, rw on at b),
          λ h. rw on (ih.1 (rw on at h.0, rw on h.1)),
        )
      ])
]

contains_self : (x : Bytes) (xs : List Bytes) → contains x (x ∷ xs) ≡ true
contains_self x xs = ground (arith, bytes_equal_iff x x)

not-contains : (x : Bytes) (xs : List Bytes) → (contains x xs ≢ true) → contains x xs ≡ false
not-contains x xs n = elim (Bool-cases (contains x xs)) [ inl y ↦ absurd (n y) | inr e ↦ e ]

remove_dupes-Once : (seen cs : List Bytes) → Once (remove_dupes seen cs)
unfolding remove_dupes
remove_dupes-Once seen [] = tt
remove_dupes-Once seen (c ∷ cs) = elim (Bool-cases (contains c seen)) [
  | inl old ↦ rw old (remove_dupes-Once seen cs)
  | inr new ↦ rw new (
    not-contains c (remove_dupes (c ∷ seen) cs) (λ h.
        let fresh = ((contains-remove_dupes c (c ∷ seen) cs).0 h).1 in
        let self = contains_self c seen in cc),
    remove_dupes-Once (c ∷ seen) cs,
  )
]

complete_prefix-Once :
    (prefix : Bytes) (cs : List Bytes) → Once cs → Once (complete_prefix prefix cs)
unfolding complete_prefix
complete_prefix-Once prefix [] o = tt
complete_prefix-Once prefix (c ∷ cs) (apart, o) = elim (Bool-cases (has_prefix c prefix)) [
  | inl p ↦ rw p (
    not-contains c (complete_prefix prefix cs)
        (λ h. let a = ((contains-complete_prefix prefix c cs).0 h).0 in cc),
    complete_prefix-Once prefix cs o,
  )
  | inr n ↦ rw n (complete_prefix-Once prefix cs o)
]

take-append : (p c : Bytes) → take (length p) (p ++ c) ≡ p
take-append [] c = refl
take-append (b ∷ p) c = ap (◌∷◌ b) (take-append p c)

drop-append_length : (p c : Bytes) → drop (length p) (p ++ c) ≡ c
drop-append_length [] c = refl
drop-append_length (b ∷ p) c = drop-append_length p c

has_prefix-append : (p c : Bytes) → has_prefix (p ++ c) p ≡ true
has_prefix-append p c = (bytes_equal_iff (take (length p) (p ++ c)) p).1 (take-append p c)

has_prefix-split : (s p : Bytes) → has_prefix s p ≡ true → s ≡ p ++ drop (length p) s
has_prefix-split s p h =
    sym (take-append-drop (length p) s)
    ∙ ap (λ t. t ++ drop (length p) s) ((bytes_equal_iff (take (length p) s) p).0 h)

-- On matches that are the choices with the prefix, each once.
finish-Only :
    (prefix c : Bytes) (cs ms : List Bytes)
    → ((x : Bytes)
        → (contains x ms ≡ true) ↔ ((contains x cs ≡ true) × (has_prefix x prefix ≡ true)))
    → Once ms
    → (finish prefix ms ≡ completes c) ↔ Only prefix cs c
finish-Only prefix c cs [] mem o = (
  λ h. cc,
  λ h. let bad : false ≡ true = (mem (prefix ++ c)).1 (h.0, has_prefix-append prefix c) in cc,
)
finish-Only prefix c cs (m ∷ []) mem o = (
  λ h.
      let e : drop (length prefix) m ≡ c = cc in
      let (there, p) = (mem m).0 (contains_self m []) in
      let whole : m ≡ prefix ++ c = has_prefix-split m prefix p ∙ ap (λ d. prefix ++ d) e in
      (
        subst (λ x. contains x cs ≡ true) whole there,
        λ other a b. only other ((mem other).1 (a, b)) ∙ whole,
      ),
  λ h.
      let (there, p) = (mem m).0 (contains_self m []) in
      let whole : m ≡ prefix ++ c = h.1 m there p in
      ap (λ x. completes (drop (length prefix) x)) whole
      ∙ ap completes (drop-append_length prefix c),
)
  where
    only : (other : Bytes) → contains other (m ∷ []) ≡ true → other ≡ m
    only other h = elim (contains-cons other m [] h) [ inl e ↦ sym e | inr bad ↦ cc ]
finish-Only prefix c cs (a ∷ b ∷ more) mem (apart, o) = (
  λ h. cc,
  λ h.
      let (in_a, pa) = (mem a).0 (contains_self a (b ∷ more)) in
      let second : contains b (a ∷ b ∷ more) ≡ true = ground (arith, contains_self b more) in
      let (in_b, pb) = (mem b).0 second in
      let same : b ≡ a = h.1 b in_b pb ∙ sym (h.1 a in_a pa) in
      let twice : contains a (b ∷ more) ≡ true =
        subst (λ x. contains x (b ∷ more) ≡ true) same (contains_self b more) in
      cc,
)

-- The choices of a line: the names of the commands for its first word, else what its command takes.
abbrev pub choices_of : Alpenhorn → Gui → List Bytes → List Bytes
choices_of alp gui [] = []
choices_of alp gui (word ∷ []) = command_names
choices_of alp gui (name ∷ arg ∷ args) = argument_choices alp gui (lookup name commands)

abbrev pub last_word : List Bytes → Bytes
last_word [] = []
last_word (word ∷ words) = last_of word words

command_names-Once : Once command_names
unfolding bytes_equal
command_names-Once = (
  refl,
  (
    refl,
    (
      refl,
      (refl, (refl, (refl, (refl, (refl, (refl, (refl, (refl, (refl, (refl, (refl, tt))))))))))),
    ),
  ),
)

complete_words-Only :
    (alp : Alpenhorn) (gui : Gui) (words : List Bytes) (c : Bytes)
    → words ≢ []
    → (complete_words alp gui words ≡ completes c)
      ↔ Only (last_word words) (choices_of alp gui words) c
complete_words-Only alp gui [] c ne = absurd (ne refl)
complete_words-Only alp gui (word ∷ []) c ne =
    finish-Only word c command_names (complete_prefix word command_names)
      (λ x. contains-complete_prefix word x command_names)
      (complete_prefix-Once word command_names command_names-Once)
complete_words-Only alp gui (name ∷ arg ∷ args) c ne =
    at (argument_choices alp gui (lookup name commands))
  where
    prefix : Bytes
    prefix = last_of arg args

    at :
        (choices : List Bytes)
        → ((if length choices == 0
              then nothing
              else finish prefix (complete_prefix prefix (remove_dupes [] choices)))
            ≡ completes c)
          ↔ Only prefix choices c
    at [] = (λ h. cc, λ h. cc)
    at (d ∷ ds) =
        let some_choice : (length (d ∷ ds) == 0) ≡ false = ground arith in
        rw some_choice (
          finish-Only prefix c (d ∷ ds) (complete_prefix prefix (remove_dupes [] (d ∷ ds)))
            (λ x.
              let inner = contains-complete_prefix prefix x (remove_dupes [] (d ∷ ds)) in
              let outer = contains-remove_dupes x [] (d ∷ ds) in
              (
                λ h. let (a, b) = inner.0 h in ((outer.0 a).0, b),
                λ h. inner.1 (outer.1 (h.0, refl), h.1),
              ))
            (complete_prefix-Once prefix (remove_dupes [] (d ∷ ds))
              (remove_dupes-Once [] (d ∷ ds))))

split-ne : (line word : Bytes) → split_from word line ≢ []
unfolding split_from
split-ne [] word e = cc
split-ne (c ∷ line) word e = elim (Bool-cases (c == 32)) [
  | inl space ↦ let bad = rw space at e in cc
  | inr on ↦ split-ne line (word ++ (c ∷ [])) (rw on at e)
]

-- On a command line the Tab key adds `c` exactly when the line's last word and `c` make one of the
-- choices for the line and no other choice begins with that word, however often the choices repeat.
pub tab_complete-Only :
    (alp : Alpenhorn) (gui : Gui) (buffer line c : Bytes)
    → trim_newlines buffer ≡ 47 ∷ line
    → (tab_complete alp gui buffer ≡ completes c)
      ↔ Only (last_word (split line)) (choices_of alp gui (split line)) c
unfolding tab_complete split
tab_complete-Only alp gui buffer line c e =
    subst
      (λ t.
        (complete_line alp gui t ≡ completes c)
        ↔ Only (last_word (split_from [] line)) (choices_of alp gui (split_from [] line)) c)
      (sym e) (complete_words-Only alp gui (split_from [] line) c (split-ne line []))
