-- ===== src/Base/Maps/Values.antt =====
-- The entries that a `range` loop over a map meets.
use Prim.Native.String.{String}
use mathlib.Core.Path.{◌≡◌}
use mathlib.Core.Logic.{inl, inr, ◌↔◌}
use mathlib.Core.Option.{some}
use mathlib.Core.List.{[], ◌∷◌}
use native.Mathlib.Omega.{arith}
use text.Mathlib.Text.{◌==◌}
use text.Mathlib.TextEquality.{eq_iff}
use text.Mathlib.TextPositions.{eq_refl}
use cli.Base.Tests.{Bool-cases}
use cli.Base.Lists.{In}
use cli.Base.Maps.{false, is_empty, Map, lookup, values, Unique}

module _ {V : Type 0} where
  lookup-In : (m : Map V) (k : String) (v : V) → lookup k m ≡ some v → In v (values m)
  unfolding lookup values
  lookup-In [] k v e = cc
  lookup-In ((j, w) ∷ m) k v e = elim (Bool-cases (j == k)) [
    | inl b ↦ inl (ground (arith, e, b))
    | inr b ↦ inr (lookup-In m k v (ground (arith, e, b)))
  ]

  In-lookup :
      (m : Map V) (v : V) → Unique m → In v (values m) → (k : String) × (lookup k m ≡ some v)
  unfolding lookup values
  In-lookup [] v h i = absurd i
  In-lookup ((j, w) ∷ m) v h (inl e) = (j, rw eq_refl (ground (arith, e)))
  In-lookup ((j, w) ∷ m) v h (inr i) =
      let (k, e) = In-lookup m v h.1 i in (k, ground (arith, eq_iff j k, h.0, e))

  -- A value stands among the values of a map exactly when some key holds it.
  pub values-lookup :
      (m : Map V) (v : V) → Unique m → In v (values m) ↔ ((k : String) × (lookup k m ≡ some v))
  values-lookup m v h = (In-lookup m v h, λ (k, e). lookup-In m k v e)

  -- A map that is not empty holds something.
  pub some_entry : (m : Map V) → is_empty m ≡ false → (k : String) × (v : V) × (lookup k m ≡ some v)
  some_entry [] e = cc
  some_entry ((k, v) ∷ m) e = (k, v, unfold lookup in rw eq_refl)
