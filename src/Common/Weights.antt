-- ===== src/Common/Weights.antt =====
-- The size of a map and the sum of its values' weights, under `set` and `erase`.
use Prim.Native.Nat.{ℕ, ◌+◌, ◌≤◌, ◌<◌}
use mathlib.Core.Path.{◌≡◌}
use mathlib.Core.Option.{Option, none, some}
use mathlib.Core.List.{[], ◌∷◌}
use native.Mathlib.Omega.{arith}
use scomp_agent.Common.Lists.{Bytes, length, equal_iff}
use scomp_agent.Common.Maps.{Map, lookup, erase, lookup-erase}

module _ {V : Type 0} where
  -- No key stands twice.
  abbrev pub Unique : Map V → Type 0
  Unique [] = Unit
  Unique ((k, v) ∷ m) = (lookup k m ≡ none) × Unique m

  pub erase-Unique : (k : Bytes) (m : Map V) → Unique m → Unique (erase k m)
  unfolding erase
  erase-Unique k [] u = tt
  erase-Unique k ((j, v) ∷ m) u = ground (arith, erase-Unique k m u.1, lookup-erase k j m, u.0)

  pub length-erase : (k : Bytes) (m : Map V) → length (erase k m) ≤ length m
  unfolding erase
  length-erase k [] = omega arith
  length-erase k ((j, v) ∷ m) = ground (arith, length-erase k m)

  pub length-erase_found :
      (k : Bytes) (v : V) (m : Map V) → lookup k m ≡ some v → length (erase k m) < length m
  unfolding lookup erase
  length-erase_found k v [] h = ground arith
  length-erase_found k v ((j, x) ∷ m) h = ground (arith, length-erase k m, length-erase_found k v m)

  module _ (weight : V → ℕ) where
    abbrev pub weigh : Map V → ℕ
    weigh [] = 0
    weigh ((k, v) ∷ m) = weight v + weigh m

    abbrev pub weigh_found : Option V → ℕ
    weigh_found none = 0
    weigh_found (some v) = weight v

    pub weigh-erase :
        (k : Bytes) (m : Map V) → Unique m → weigh (erase k m) + weigh_found (lookup k m) ≡ weigh m
    unfolding lookup erase
    weigh-erase k [] u = omega arith
    weigh-erase k ((j, v) ∷ m) u = ground (arith, weigh-erase k m u.1, equal_iff j k, u.0)
