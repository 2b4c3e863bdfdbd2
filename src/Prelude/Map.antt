-- ===== src/Prelude/Map.antt =====
-- A Go map with string keys, as an association list: `m[k]`, `m[k] = v` and `delete(m, k)`. An
-- assignment adds an entry only for a new key, so `length` is the map's `len`.
use Prim.Native.Nat.{suc, ◌≤◌}
use Prim.Native.String.{String}
use mathlib.Core.Path.{◌≡◌, refl}
use mathlib.Core.List.{List, [], ◌∷◌}
use mathlib.Core.Option.{Option, none, some}
use native.Mathlib.Omega.{arith}
use text.Mathlib.Text.{◌==◌ as str_eq}
use text.Mathlib.TextEquality.{eq_iff}
use text.Mathlib.TextPositions.{eq_refl}
use goplusplus.Prelude.Tests.{if◌then◌else◌}
use goplusplus.Prelude.Lists.{length}

abbrev pub Map {ℓ} : Type ℓ → Type ℓ
Map V = List (String × V)

module _ {ℓ} {V : Type ℓ} where
  unfoldable pub lookup : Map V → String → Option V
  lookup [] k = none
  lookup ((key, v) ∷ rest) k = if str_eq key k then some v else lookup rest k

  unfoldable pub assign : Map V → String → V → Map V
  assign [] k v = (k, v) ∷ []
  assign ((key, old) ∷ rest) k v =
      if str_eq key k then (key, v) ∷ rest else (key, old) ∷ assign rest k v

  unfoldable pub delete : Map V → String → Map V
  delete [] k = []
  delete ((key, v) ∷ rest) k = if str_eq key k then delete rest k else (key, v) ∷ delete rest k

  pub lookup-assign :
      (m : Map V) (k : String) (v : V) (j : String)
      → lookup (assign m k v) j ≡ (if str_eq k j then some v else lookup m j)
  unfolding lookup assign
  lookup-assign [] k v j = refl
  lookup-assign ((key, old) ∷ rest) k v j =
      ground (arith, lookup-assign rest k v j, eq_iff key k, eq_iff k j, eq_iff key j)

  pub lookup-delete :
      (m : Map V) (k j : String) → lookup (delete m k) j ≡ (if str_eq k j then none else lookup m j)
  unfolding lookup delete
  lookup-delete [] k j = ground arith
  lookup-delete ((key, v) ∷ rest) k j =
      ground (arith, lookup-delete rest k j, eq_iff key k, eq_iff k j, eq_iff key j)

  pub lookup-assign_self : (m : Map V) (k : String) (v : V) → lookup (assign m k v) k ≡ some v
  lookup-assign_self m k v = simp (lookup-assign, eq_refl)

  pub lookup-delete_self : (m : Map V) (k : String) → lookup (delete m k) k ≡ none
  lookup-delete_self m k = simp (lookup-delete, eq_refl)

  pub length-assign_new :
      (m : Map V) (k : String) (v : V) → lookup m k ≡ none → length (assign m k v) ≡ suc (length m)
  unfolding lookup assign
  length-assign_new [] k v h = refl
  length-assign_new ((key, old) ∷ rest) k v h = ground (arith, length-assign_new rest k v)

  pub length-assign_old :
      (m : Map V) (k : String) (v old : V)
      → lookup m k ≡ some old
      → length (assign m k v) ≡ length m
  unfolding lookup assign
  length-assign_old [] k v old h = ground arith
  length-assign_old ((key, w) ∷ rest) k v old h = ground (arith, length-assign_old rest k v old)

  pub length-delete-le : (m : Map V) (k : String) → length (delete m k) ≤ length m
  unfolding delete
  length-delete-le [] k = omega arith
  length-delete-le ((key, v) ∷ rest) k = ground (arith, length-delete-le rest k)

  pub length-delete_old :
      (m : Map V) (k : String) (v : V) → lookup m k ≡ some v → suc (length (delete m k)) ≤ length m
  unfolding lookup delete
  length-delete_old [] k v h = ground arith
  length-delete_old ((key, w) ∷ rest) k v h =
      ground (arith, length-delete_old rest k v, length-delete-le rest k)
