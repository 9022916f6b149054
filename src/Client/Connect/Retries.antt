-- ===== src/Client/Connect/Retries.antt =====
-- What the user is told of a connection that is tried again and again.
use gjallarhorn.Prelude.{
  ℕ, zero, suc, ◌≡◌, ◌≢◌, ◌⊎◌, sym, ap, ◌∙◌, true, false, List, [], ◌∷◌, Option, none, some,
  some_inj, inl, inr, get_elem?, arith, Bool-cases,
}
use gjallarhorn.Prelude.Bytes.{Bytes, bytes_equal, bytes_equal_iff}
use gjallarhorn.Client.Connect.{
  Attempt, refused, dropped, LoopNote, error_connecting, connected, disconnected, is_new,
  connect_loop,
}

-- No error is printed that is the latest thing printed, `prev` being the one from before.
abbrev pub NoRepeat : Option Bytes → List LoopNote → Type 0
NoRepeat prev [] = Unit
NoRepeat prev (error_connecting err ∷ notes) = (prev ≢ some err) × NoRepeat (some err) notes
NoRepeat prev (connected ∷ notes) = NoRepeat none notes
NoRepeat prev (disconnected err ∷ notes) = NoRepeat none notes

is_new-differs : (prev : Option Bytes) (err : Bytes) → is_new prev err ≡ true → prev ≢ some err
is_new-differs none err h e = cc
is_new-differs (some prev) err h e =
    let same : bytes_equal err prev ≡ true = (bytes_equal_iff err prev).1 (sym (some_inj e)) in
    ground (arith, same, h)

is_new-same : (prev : Option Bytes) (err : Bytes) → is_new prev err ≡ false → prev ≡ some err
is_new-same none err h = cc
is_new-same (some prev) err h =
    let same : bytes_equal err prev ≡ true = ground (arith, h) in
    ap some (sym ((bytes_equal_iff err prev).0 same))

connect_loop-NoRepeat :
    (prev : Option Bytes) (attempts : List Attempt) → NoRepeat prev (connect_loop prev attempts)
unfolding connect_loop
connect_loop-NoRepeat prev [] = tt
connect_loop-NoRepeat prev (dropped err ∷ rest) = connect_loop-NoRepeat none rest
connect_loop-NoRepeat prev (refused err ∷ rest) = elim (Bool-cases (is_new prev err)) [
  | inl e ↦ rw (connect_loop, e) (is_new-differs prev err e, connect_loop-NoRepeat (some err) rest)
  | inr e ↦ rw (connect_loop, e) (connect_loop-NoRepeat prev rest)
]

abbrev pub Tells : Bytes → List LoopNote → Type 0
Tells err notes = (i : ℕ) × (get_elem? notes i ≡ some (error_connecting err))

refused_inj : {a b : Bytes} → some (refused a) ≡ some (refused b) → a ≡ b
refused_inj {a} {b} h = let e : refused a ≡ refused b = some_inj h in cc

connect_loop-Tells :
    (prev : Option Bytes) (attempts : List Attempt) (k : ℕ) (err : Bytes)
    → get_elem? attempts k ≡ some (refused err)
    → (prev ≡ some err) ⊎ Tells err (connect_loop prev attempts)
unfolding connect_loop
connect_loop-Tells prev [] k err at = cc
connect_loop-Tells prev (dropped e ∷ rest) zero err at = cc
connect_loop-Tells prev (dropped e ∷ rest) (suc k) err at =
    elim (connect_loop-Tells none rest k err at) [
      | inl h ↦ cc
      | inr (i, there) ↦ inr (suc (suc i), there)
    ]
connect_loop-Tells prev (refused e ∷ rest) zero err at = elim (Bool-cases (is_new prev e)) [
  | inl new ↦
      inr (rw (connect_loop, new) (zero, ap (λ x. some (error_connecting x)) (refused_inj at)))
  | inr old ↦ inl (is_new-same prev e old ∙ ap some (refused_inj at))
]
connect_loop-Tells prev (refused e ∷ rest) (suc k) err at = elim (Bool-cases (is_new prev e)) [
  | inl new ↦ elim (connect_loop-Tells (some e) rest k err at) [
    | inl h ↦ inr (rw (connect_loop, new) (zero, ap (λ x. some (error_connecting x)) (some_inj h)))
    | inr (i, there) ↦ inr (rw (connect_loop, new) (suc i, there))
  ]
  | inr old ↦ elim (connect_loop-Tells prev rest k err at) [
    | inl h ↦ inl h
    | inr there ↦ inr (rw (connect_loop, old) there)
  ]
]

-- Every error to connect is printed, and none is printed twice in a row, whatever the attempts are.
pub connect_loop-once :
    (attempts : List Attempt)
    → NoRepeat none (connect_loop none attempts)
      × ((k : ℕ) (err : Bytes)
          → get_elem? attempts k ≡ some (refused err)
          → Tells err (connect_loop none attempts))
connect_loop-once attempts = (
  connect_loop-NoRepeat none attempts,
  (λ k err at. elim (connect_loop-Tells none attempts k err at) [ inl h ↦ cc | inr t ↦ t ]),
)
