-- ===== src/Cache/Stores.antt =====
-- cache/cache.go, the Store interface, over a store's state. A call reads its context and the clock;
-- both are fixed in the operations.
use text.Mathlib.Text.{starts_with}
use goplusplus.Prelude.{◌≡◌, ◌⊎◌, String, Bool, false, Option, none, some, if◌then◌else◌, str_eq}
use goplusplus.Prelude.Int.{ℤ, pos, leb_ℤ}

-- The value with its remaining lifetime, a miss, or an error.
pub data Read {ℓ} (V E : Type ℓ) : Type ℓ where
  hit : V → ℤ → Read V E
  miss : Read V E
  failed : E → Read V E

-- `has_ttl` tells whether the store has a getWithTTL; a Get alone says nothing of the lifetime. The
-- GetOrSet of the interface is left out.
pub record Store {ℓ} (S V E : Type ℓ) : Type ℓ where
  pub has_ttl : Bool
  pub get_with_ttl : String → S → S × Read V E
  pub set : String → V → ℤ → S → S × Option E
  pub delete : String → S → S × Option E
  pub invalidate_prefix : String → S → S × Option E

-- What a store promises of its live entries at the time of the calls. A set may drop other entries;
-- a call that fails may have done anything.
pub record Lawful {ℓ} {S V E : Type ℓ} (store : Store S V E) : Type ℓ where
  pub view : S → String → Option V
  pub get_keeps :
      (key : String) (s : S) (j : String) → view (store.get_with_ttl key s).0 j ≡ view s j
  pub get_hit :
      (key : String) (s : S) (v : V) (ttl : ℤ)
      → (store.get_with_ttl key s).1 ≡ hit v ttl
      → view s key ≡ some v
  pub get_miss : (key : String) (s : S) → (store.get_with_ttl key s).1 ≡ miss → view s key ≡ none
  pub set_self :
      (key : String) (v : V) (ttl : ℤ) (s : S)
      → (store.set key v ttl s).1 ≡ none
      → view (store.set key v ttl s).0 key ≡ (if leb_ℤ ttl (pos 0) then none else some v)
  pub set_other :
      (key : String) (v : V) (ttl : ℤ) (s : S) (j : String)
      → (store.set key v ttl s).1 ≡ none
      → str_eq key j ≡ false
      → (view (store.set key v ttl s).0 j ≡ view s j) ⊎ (view (store.set key v ttl s).0 j ≡ none)
  pub delete_view :
      (key : String) (s : S) (j : String)
      → (store.delete key s).1 ≡ none
      → view (store.delete key s).0 j ≡ (if str_eq key j then none else view s j)
  pub invalidate_view :
      (prefix : String) (s : S) (j : String)
      → (store.invalidate_prefix prefix s).1 ≡ none
      → view (store.invalidate_prefix prefix s).0 j
        ≡ (if starts_with j prefix then none else view s j)

-- A set leaves the other keys of the store as they are: it evicts nothing.
abbrev pub KeepsOthers {ℓ} : {S V E : Type ℓ} (store : Store S V E) → Lawful store → Type ℓ
KeepsOthers {S} {V} store w =
    (key : String) (v : V) (ttl : ℤ) (s : S) (j : String)
    → (store.set key v ttl s).1 ≡ none
    → str_eq key j ≡ false
    → w.view (store.set key v ttl s).0 j ≡ w.view s j
