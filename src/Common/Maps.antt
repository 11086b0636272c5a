-- ===== src/Common/Maps.antt =====
-- A map whose keys are strings, as an association list.
use mathlib.Core.Path.{◌≡◌, refl}
use mathlib.Core.Bool.{false}
use mathlib.Core.Option.{Option, none, some}
use mathlib.Core.List.{List, [], ◌∷◌}
use native.Mathlib.Omega.{arith}
use scomp_agent.Common.Tests.{if◌then◌else◌}
use scomp_agent.Common.Lists.{Bytes, equal, equal_iff}

abbrev pub Map : Type 0 → Type 0
Map V = List (Bytes × V)

module _ {V : Type 0} where
  unfoldable pub lookup : Bytes → Map V → Option V
  lookup k [] = none
  lookup k ((j, v) ∷ m) = if equal j k then some v else lookup k m

  unfoldable pub erase : Bytes → Map V → Map V
  erase k [] = []
  erase k ((j, v) ∷ m) = let rest = erase k m in if equal j k then rest else (j, v) ∷ rest

  abbrev pub set : Bytes → V → Map V → Map V
  set k v m = (k, v) ∷ erase k m

  pub lookup-erase_same : (k : Bytes) (m : Map V) → lookup k (erase k m) ≡ none
  unfolding lookup erase
  lookup-erase_same k [] = refl
  lookup-erase_same k ((j, v) ∷ m) = ground (arith, lookup-erase_same k m)

  pub lookup-erase_other :
      (k j : Bytes) (m : Map V) → equal k j ≡ false → lookup j (erase k m) ≡ lookup j m
  unfolding lookup erase
  lookup-erase_other k j [] ne = refl
  lookup-erase_other k j ((i, v) ∷ m) ne =
      ground (arith, equal_iff i k, lookup-erase_other k j m ne)

  pub lookup-erase :
      (k j : Bytes) (m : Map V) → lookup j (erase k m) ≡ (if equal k j then none else lookup j m)
  lookup-erase k j m =
      ground (arith, lookup-erase_same k m, lookup-erase_other k j m, equal_iff k j)

  pub lookup-set :
      (k j : Bytes) (v : V) (m : Map V)
      → lookup j (set k v m) ≡ (if equal k j then some v else lookup j m)
  unfolding lookup
  lookup-set k j v m = ground (arith, lookup-erase_other k j m)
