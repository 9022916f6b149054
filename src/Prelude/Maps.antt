-- ===== src/Prelude/Maps.antt =====
-- A Go map as an association list with at most one binding for a key that `insert` has written.
use gjallarhorn.Prelude.Tests.{if◌then◌else◌, Eq}
use gjallarhorn.Prelude.Lists.{length}
use Prim.Native.Nat.{◌≤◌, ◌<◌}
use mathlib.Core.Path.{◌≡◌}
use mathlib.Core.Bool.{Bool, not}
use mathlib.Core.List.{List, [], ◌∷◌}
use mathlib.Core.Option.{Option, none, some}
use native.Mathlib.Omega.{arith}

abbrev pub Map {ℓ κ} : Type ℓ → Type κ → Type (ℓ ⊔ κ)
Map K V = List (K × V)

module _ {ℓ κ} {K : Type ℓ} {V : Type κ} where
  -- `for k := range m { if !keep(k) { delete(m, k) } }`
  unfoldable pub retain : (K → Bool) → Map K V → Map K V
  retain keep [] = []
  retain keep ((j, v) ∷ m) = if keep j then (j, v) ∷ retain keep m else retain keep m

module _ {ℓ κ} {K : Type ℓ} {V : Type κ} ⦃e : Eq K⦄ where
  unfoldable pub lookup : K → Map K V → Option V
  lookup k [] = none
  lookup k ((j, v) ∷ m) = if e.beq j k then some v else lookup k m

  unfoldable pub delete : K → Map K V → Map K V
  unfolding retain
  delete k = retain (λ j. not (e.beq j k))

  unfoldable pub insert : K → V → Map K V → Map K V
  unfolding delete
  insert k v m = (k, v) ∷ delete k m

  pub lookup-retain :
      (keep : K → Bool) (j : K) (m : Map K V)
      → lookup j (retain keep m) ≡ (if keep j then lookup j m else none)
  unfolding lookup retain
  lookup-retain keep j [] = ground arith
  lookup-retain keep j ((i, v) ∷ m) = ground (arith, e.beq_iff i j, lookup-retain keep j m)

  pub lookup-delete :
      (k j : K) (m : Map K V) → lookup j (delete k m) ≡ (if e.beq k j then none else lookup j m)
  unfolding delete
  lookup-delete k j m =
      ground (arith, e.beq_iff j k, e.beq_iff k j, lookup-retain (λ i. not (e.beq i k)) j m)

  pub lookup-insert :
      (k j : K) (v : V) (m : Map K V)
      → lookup j (insert k v m) ≡ (if e.beq k j then some v else lookup j m)
  unfolding lookup insert
  lookup-insert k j v m = ground (arith, lookup-delete k j m)

  pub lookup-insert_same : (k : K) (v : V) (m : Map K V) → lookup k (insert k v m) ≡ some v
  lookup-insert_same k v m = ground (arith, lookup-insert k k v m, e.beq_iff k k)

  length-retain : (keep : K → Bool) (m : Map K V) → length (retain keep m) ≤ length m
  unfolding retain
  length-retain keep [] = omega arith
  length-retain keep ((i, v) ∷ m) = ground (arith, length-retain keep m)

  -- Deleting a key that is bound makes the map smaller.
  pub length-delete :
      (k : K) (m : Map K V) {v : V} → lookup k m ≡ some v → length (delete k m) < length m
  unfolding lookup delete
  length-delete k [] {v} h = ground arith
  length-delete k ((i, w) ∷ m) {v} h =
      ground (arith, length-delete k m {v = v}, length-retain (λ j. not (e.beq j k)) m)
