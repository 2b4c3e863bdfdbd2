-- ===== src/Cache/Memory/Laws.antt =====
-- MemoryStore keeps the promises of a store.
use text.Mathlib.Text.{starts_with}
use goplusplus.Prelude.{
  ◌≡◌, refl, inl, inr, String, List, [], ◌∷◌, Option, none, some, if◌then◌else◌, str_eq, eq_iff,
  arith, Option-cases,
}
use goplusplus.Prelude.Int.{ℤ, pos, ◌+ℤ◌, ◌-ℤ◌, leb_ℤ, +ℤ_parts, -ℤ_parts}
use goplusplus.Prelude.Map.{Map, lookup, delete, lookup-assign, lookup-delete, lookup-assign_self}
use goplusplus.Prelude.Ordered.{contains, is_some}
use goplusplus.Cache.Stores.{Lawful, KeepsOthers, hit, miss}
use goplusplus.Cache.Memory.{
  MemoryItem, ContextError, set_item, get_item, invalidate_items, keys_of, memory_store,
}

-- a + b - a, against zero
pub fresh : (now ttl : ℤ) → leb_ℤ (now +ℤ ttl -ℤ now) (pos 0) ≡ leb_ℤ ttl (pos 0)
fresh now ttl = ground (arith, +ℤ_parts now ttl, -ℤ_parts (now +ℤ ttl) now)

module _ {V : Type 0} where
  abbrev pub live_value : ℤ → Option (MemoryItem V) → Option V
  live_value now none = none
  live_value now (some item) =
      if leb_ℤ (item.expires_at -ℤ now) (pos 0) then none else some item.val

  abbrev pub live : ℤ → Map (MemoryItem V) → String → Option V
  live now s key = live_value now (lookup s key)

  keys_of-contains :
      (s : Map (MemoryItem V)) (j : String) → contains (keys_of s) j ≡ is_some (lookup s j)
  unfolding lookup
  keys_of-contains [] j = refl
  keys_of-contains ((key, item) ∷ s) j = ground (arith, keys_of-contains s j)

  invalidate_items-lookup :
      (keys : List String) (s : Map (MemoryItem V)) (prefix j : String)
      → lookup (invalidate_items keys s prefix) j ≡ (
          if contains keys j
          then (if starts_with j prefix then none else lookup s j)
          else lookup s j)
  unfolding invalidate_items
  invalidate_items-lookup [] s prefix j = refl
  invalidate_items-lookup (key ∷ keys) s prefix j = ground (
    arith,
    eq_iff key j,
    lookup-delete s key j,
    invalidate_items-lookup keys (delete s key) prefix j,
    invalidate_items-lookup keys s prefix j,
  )

  pub get_item-hit :
      (s : Map (MemoryItem V)) (ctx : Option ContextError) (key : String) (now : ℤ) (v : V)
      (ttl : ℤ)
      → get_item s ctx key now ≡ hit v ttl
      → live now s key ≡ some v
  unfolding get_item
  get_item-hit s (some e) key now v ttl h = absurd (ground arith)
  get_item-hit s none key now v ttl h = elim (Option-cases (lookup s key)) [
    | inl absent ↦ absurd (ground arith)
    | inr (item, present) ↦ ground (arith, present)
  ]

  pub get_item-miss :
      (s : Map (MemoryItem V)) (ctx : Option ContextError) (key : String) (now : ℤ)
      → get_item s ctx key now ≡ miss
      → live now s key ≡ none
  unfolding get_item
  get_item-miss s (some e) key now h = absurd (ground arith)
  get_item-miss s none key now h = elim (Option-cases (lookup s key)) [
    | inl absent ↦ ground arith
    | inr (item, present) ↦ ground (arith, present)
  ]

  pub invalidate_items-live :
      (s : Map (MemoryItem V)) (prefix j : String) (now : ℤ)
      → live now (invalidate_items (keys_of s) s prefix) j
        ≡ (if starts_with j prefix then none else live now s j)
  invalidate_items-live s prefix j now =
      ground (arith, keys_of-contains s j, invalidate_items-lookup (keys_of s) s prefix j)

  pub delete-live :
      (s : Map (MemoryItem V)) (key j : String) (now : ℤ)
      → live now (delete s key) j ≡ (if str_eq key j then none else live now s j)
  delete-live s key j now = ground (arith, lookup-delete s key j)

  unfoldable pub memory_laws :
      (ctx : Option ContextError) (now : ℤ) → Lawful (memory_store {V = V} ctx now)
  unfolding memory_store set_item get_item
  memory_laws ctx now = record {
    view = live now;
    get_keeps = λ key s j. refl;
    get_hit = λ key s v ttl h. get_item-hit s ctx key now v ttl h;
    get_miss = λ key s h. get_item-miss s ctx key now h;
    set_self = λ key v ttl s h.
        rw (lookup-assign_self s key (record { val = v; expires_at = now +ℤ ttl }), fresh now ttl)
          refl;
    set_other = λ key v ttl s j h other.
        inl (rw (lookup-assign s key (record { val = v; expires_at = now +ℤ ttl }) j, other) refl);
    delete_view = λ key s j h. delete-live s key j now;
    invalidate_view = λ prefix s j h. invalidate_items-live s prefix j now;
  }

  pub memory_store-KeepsOthers :
      (ctx : Option ContextError) (now : ℤ)
      → KeepsOthers (memory_store {V = V} ctx now) (memory_laws ctx now)
  unfolding memory_store set_item memory_laws
  memory_store-KeepsOthers ctx now key v ttl s j done other =
      rw (lookup-assign s key (record { val = v; expires_at = now +ℤ ttl }) j, other) refl
