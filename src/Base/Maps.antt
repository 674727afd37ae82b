-- ===== src/Base/Maps.antt =====
-- A Go map with string keys. `insert` is `m[k] = v`, `delete` is `delete(m, k)`, `lookup` is
-- `v, ok := m[k]`, and a `range` loop walks the entries in the order of the list: Go leaves the
-- order open, so the theorems about such loops do not name it.
pub mod Values
use Prim.Native.String.{String}
use mathlib.Core.Path.{◌≡◌, refl}
use mathlib.Core.Bool.{Bool, true, false}
use mathlib.Core.Option.{Option, none, some}
use mathlib.Core.List.{List, [], ◌∷◌}
use native.Mathlib.Omega.{arith}
use text.Mathlib.Text.{◌==◌}
use text.Mathlib.TextEquality.{eq_iff}
use cli.Base.Tests.{if◌then◌else◌}

abbrev pub Map {ℓ} : Type ℓ → Type ℓ
Map V = List (String × V)

module _ {ℓ} {V : Type ℓ} where
  unfoldable pub lookup : String → Map V → Option V
  lookup key [] = none
  lookup key ((own, held) ∷ rest) = if own == key then some held else lookup key rest

  unfoldable pub insert : String → V → Map V → Map V
  insert key new [] = (key, new) ∷ []
  insert key new ((own, held) ∷ rest) =
      let later = insert key new rest in
      if own == key then (own, new) ∷ rest else (own, held) ∷ later

  unfoldable pub delete : String → Map V → Map V
  delete k [] = []
  delete k ((j, w) ∷ m) = let rest = delete k m in if j == k then rest else (j, w) ∷ rest

  unfoldable pub values : Map V → List V
  values [] = []
  values ((k, v) ∷ m) = v ∷ values m

  -- Every value is changed in place.
  unfoldable pub map_values : (V → V) → Map V → Map V
  map_values f [] = []
  map_values f ((k, v) ∷ m) = (k, f v) ∷ map_values f m

  -- `len(m) == 0`
  abbrev pub is_empty : Map V → Bool
  is_empty [] = true
  is_empty (e ∷ m) = false

  -- No key stands twice.
  abbrev pub Unique : Map V → Type ℓ
  Unique [] = Unit
  Unique ((k, v) ∷ m) = (lookup k m ≡ none) × Unique m

  pub lookup-nil : (k : String) → lookup k [] ≡ none
  unfolding lookup
  lookup-nil k = refl

  pub lookup-insert :
      (key other : String) (new : V) (m : Map V)
      → lookup other (insert key new m) ≡ (if key == other then some new else lookup other m)
  unfolding insert lookup
  lookup-insert key other new [] = refl
  lookup-insert key other new ((own, held) ∷ rest) =
      ground (
        arith,
        lookup-insert key other new rest,
        eq_iff own key,
        eq_iff own other,
        eq_iff key other,
      )

  pub lookup-delete :
      (k j : String) (m : Map V) → lookup j (delete k m) ≡ (if k == j then none else lookup j m)
  unfolding lookup delete
  lookup-delete k j [] = ground arith
  lookup-delete k j ((i, w) ∷ m) =
      ground (arith, eq_iff k j, eq_iff i k, eq_iff i j, lookup-delete k j m)

  pub is_empty-lookup : (m : Map V) (k : String) → is_empty m ≡ true → lookup k m ≡ none
  unfolding lookup
  is_empty-lookup [] k h = refl
  is_empty-lookup (e ∷ m) k h = ground arith

  pub insert-is_empty : (k : String) (v : V) (m : Map V) → is_empty (insert k v m) ≡ false
  unfolding insert
  insert-is_empty k v [] = refl
  insert-is_empty k v ((j, w) ∷ m) = ground arith

  pub insert-Unique : (k : String) (v : V) (m : Map V) → Unique m → Unique (insert k v m)
  unfolding insert
  insert-Unique k v [] h = unfold lookup in (refl, tt)
  insert-Unique k v ((j, w) ∷ m) h =
      ground (arith, eq_iff j k, eq_iff k j, lookup-insert k j v m, insert-Unique k v m)

  pub delete-Unique : (k : String) (m : Map V) → Unique m → Unique (delete k m)
  unfolding delete
  delete-Unique k [] h = tt
  delete-Unique k ((j, w) ∷ m) h = ground (arith, lookup-delete k j m, delete-Unique k m)
