-- ===== src/Prelude/Ordered.antt =====
-- A Go map beside a list of its keys in insertion order (`container/list`). A list element is
-- identified with its key: `Agree` says that no key stands in the list twice.
use Prim.Native.String.{String}
use mathlib.Core.Path.{◌≡◌, refl}
use mathlib.Core.Bool.{Bool, true, false}
use mathlib.Core.List.{List, [], ◌∷◌, ◌++◌}
use mathlib.Core.Option.{Option, none, some}
use native.Mathlib.Omega.{arith}
use text.Mathlib.Text.{◌==◌ as str_eq}
use text.Mathlib.TextEquality.{eq_iff}
use goplusplus.Prelude.Tests.{if◌then◌else◌}
use goplusplus.Prelude.Map.{Map, lookup, assign, delete, lookup-assign, lookup-delete}

abbrev pub contains : List String → String → Bool
contains [] k = false
contains (key ∷ keys) k = if str_eq key k then true else contains keys k

-- order.Remove(element)
unfoldable pub remove : List String → String → List String
remove [] k = []
remove (key ∷ keys) k = if str_eq key k then remove keys k else key ∷ remove keys k

abbrev pub Distinct : List String → Type 0
Distinct [] = Unit
Distinct (key ∷ keys) = (contains keys key ≡ false) × Distinct keys

pub contains-snoc :
    (keys : List String) (k j : String)
    → contains (keys ++ k ∷ []) j ≡ (if str_eq k j then true else contains keys j)
contains-snoc [] k j = refl
contains-snoc (key ∷ keys) k j = ground (arith, contains-snoc keys k j)

pub contains-remove :
    (keys : List String) (k j : String)
    → contains (remove keys k) j ≡ (if str_eq k j then false else contains keys j)
unfolding remove
contains-remove [] k j = ground arith
contains-remove (key ∷ keys) k j =
    ground (arith, contains-remove keys k j, eq_iff key k, eq_iff k j, eq_iff key j)

Distinct-snoc :
    (keys : List String) (k : String)
    → contains keys k ≡ false
    → Distinct keys
    → Distinct (keys ++ k ∷ [])
Distinct-snoc [] k absent d = (refl, tt)
Distinct-snoc (key ∷ keys) k absent d =
    ground (arith, Distinct-snoc keys k, contains-snoc keys k key, eq_iff key k, eq_iff k key)

Distinct-remove : (keys : List String) (k : String) → Distinct keys → Distinct (remove keys k)
unfolding remove
Distinct-remove [] k d = tt
Distinct-remove (key ∷ keys) k d =
    ground (arith, Distinct-remove keys k d.1, contains-remove keys k key)

abbrev pub is_some {ℓ} : {A : Type ℓ} → Option A → Bool
is_some none = false
is_some (some a) = true

-- The list holds the map's keys, each once.
pub record Agree {ℓ} {V : Type ℓ} (m : Map V) (order : List String) : Type ℓ where
  pub distinct : Distinct order
  pub same : (k : String) → contains order k ≡ is_some (lookup m k)

module _ {ℓ} {V : Type ℓ} {m : Map V} {order : List String} where
  pub Agree-push :
      (k : String) (v : V)
      → lookup m k ≡ none
      → Agree m order
      → Agree (assign m k v) (order ++ k ∷ [])
  Agree-push k v new a = record {
    distinct = Distinct-snoc order k (ground (arith, a.same k)) a.distinct;
    same = λ j. ground (arith, a.same j, contains-snoc order k j, lookup-assign m k v j);
  }

  pub Agree-update :
      (k : String) (v old : V) → lookup m k ≡ some old → Agree m order → Agree (assign m k v) order
  Agree-update k v old present a = record {
    distinct = a.distinct;
    same = λ j. ground (arith, a.same j, lookup-assign m k v j, eq_iff k j);
  }

  pub Agree-delete : (k : String) → Agree m order → Agree (delete m k) (remove order k)
  Agree-delete k a = record {
    distinct = Distinct-remove order k a.distinct;
    same = λ j. ground (arith, a.same j, contains-remove order k j, lookup-delete m k j);
  }

pub Agree-nil {ℓ} : {V : Type ℓ} → Agree {V = V} [] []
unfolding lookup
Agree-nil = record { distinct = tt; same = λ k. refl }
