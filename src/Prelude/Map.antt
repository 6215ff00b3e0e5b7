-- ===== src/Prelude/Map.antt =====
-- Go's `map[string]V` as a list of entries. The order of the entries stands for the unspecified
-- order of iteration; the laws of a lookup do not depend on it.
use Prim.Native.String.{String}
use mathlib.Core.Path.{◌≡◌, refl}
use mathlib.Core.Bool.{Bool, false}
use mathlib.Core.Option
use mathlib.Core.Option.{Option, none, some}
use mathlib.Core.List.{List, [], ◌∷◌}
use native.Mathlib.Omega.{arith}
use text.Mathlib.Text.{◌==◌}
use text.Mathlib.TextEquality.{eq_iff}
use hush_hush_cli.Prelude.Tests.{if◌then◌else◌, is_some}

abbrev pub Map {ℓ} : Type ℓ → Type ℓ
Map V = List (String × V)

module _ {ℓ} {V : Type ℓ} where
  -- m[k]
  unfoldable pub lookup : String → Map V → Option V
  lookup k [] = none
  lookup k ((j, v) ∷ m) = if j == k then some v else lookup k m

  -- `_, ok := m[k]`
  unfoldable pub has : String → Map V → Bool
  unfolding lookup
  has k m = is_some (lookup k m)

  -- m[k] = v
  unfoldable pub put : String → V → Map V → Map V
  put k v [] = (k, v) ∷ []
  put k v ((j, w) ∷ m) = if j == k then (j, v) ∷ m else (j, w) ∷ put k v m

  -- delete(m, k)
  unfoldable pub remove : String → Map V → Map V
  remove k [] = []
  remove k ((j, v) ∷ m) = let rest = remove k m in if j == k then rest else (j, v) ∷ rest

  unfoldable pub keys : Map V → List String
  keys [] = []
  keys ((j, v) ∷ m) = j ∷ keys m

  -- `for k, v := range m { m[k] = f(v) }`
  unfoldable pub map_values : (V → V) → Map V → Map V
  map_values f [] = []
  map_values f ((j, v) ∷ m) = (j, f v) ∷ map_values f m

  -- No key stands twice.
  abbrev pub Distinct : Map V → Type 0
  unfolding lookup
  Distinct [] = Unit
  Distinct ((j, v) ∷ m) = (has j m ≡ false) × Distinct m

  pub lookup-put :
      (k j : String) (v : V) (m : Map V)
      → lookup j (put k v m) ≡ (if k == j then some v else lookup j m)
  unfolding lookup put
  lookup-put k j v [] = refl
  lookup-put k j v ((i, w) ∷ m) =
      ground (arith, eq_iff k j, eq_iff i k, eq_iff i j, lookup-put k j v m)

  pub lookup-remove :
      (k j : String) (m : Map V) → lookup j (remove k m) ≡ (if k == j then none else lookup j m)
  unfolding lookup remove
  lookup-remove k j [] = ground arith
  lookup-remove k j ((i, w) ∷ m) =
      ground (arith, eq_iff k j, eq_iff i k, eq_iff i j, lookup-remove k j m)

  pub lookup-map_values :
      (f : V → V) (k : String) (m : Map V) → lookup k (map_values f m) ≡ Option.map f (lookup k m)
  unfolding lookup map_values
  lookup-map_values f k [] = refl
  lookup-map_values f k ((i, w) ∷ m) = ground (arith, lookup-map_values f k m)

  pub has-lookup : (k : String) (m : Map V) → has k m ≡ is_some (lookup k m)
  unfolding has
  has-lookup k m = refl
