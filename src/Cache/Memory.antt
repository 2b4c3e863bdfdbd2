-- ===== src/Cache/Memory.antt =====
-- cache/cache.go, MemoryStore, as an implementation of the Store interface.
pub mod Laws
use text.Mathlib.Text.{starts_with}
use goplusplus.Prelude.{String, Bool, true, List, [], ◌∷◌, Option, none, some, if◌then◌else◌, map}
use goplusplus.Prelude.Int.{ℤ, pos, ◌+ℤ◌, ◌-ℤ◌, leb_ℤ}
use goplusplus.Prelude.Map.{Map, lookup, assign, delete}
use goplusplus.Cache.Stores.{Store, Read, hit, miss, failed}

pub record MemoryItem {ℓ} (V : Type ℓ) : Type ℓ where
  pub val : V
  pub expires_at : ℤ

pub data ContextError : Type 0 where
  canceled deadline_exceeded : ContextError

module _ {V : Type 0} where
  abbrev pub new_memory_store : Map (MemoryItem V)
  new_memory_store = []

  unfoldable pub set_item : Map (MemoryItem V) → String → V → ℤ → ℤ → Map (MemoryItem V)
  set_item s key val ttl now = assign s key (record { val = val; expires_at = now +ℤ ttl })

  -- For a missing key, Go reads the zero item, and `!ok` decides.
  unfoldable pub get_item :
      Map (MemoryItem V) → Option ContextError → String → ℤ → Read V ContextError
  get_item s (some e) key now = failed e
  get_item s none key now = elim (lookup s key) [
    | none ↦ miss
    | some item ↦
        let remaining = item.expires_at -ℤ now in
        if leb_ℤ remaining (pos 0) then miss else hit item.val remaining
  ]

  -- The loop of InvalidatePrefix over the keys of the map, in some order.
  unfoldable pub invalidate_items : List String → Map (MemoryItem V) → String → Map (MemoryItem V)
  invalidate_items [] s prefix = s
  invalidate_items (key ∷ keys) s prefix =
      invalidate_items keys (if starts_with key prefix then delete s key else s) prefix

  abbrev pub keys_of : Map (MemoryItem V) → List String
  keys_of [] = []
  keys_of ((key, item) ∷ s) = key ∷ keys_of s

  -- The methods, for calls with one context and one reading of the clock.
  unfoldable pub memory_store : Option ContextError → ℤ → Store (Map (MemoryItem V)) V ContextError
  memory_store ctx now = record {
    has_ttl = true;
    get_with_ttl = λ key s. (s, get_item s ctx key now);
    set = λ key val ttl s. (set_item s key val ttl now, none);
    delete = λ key s. (delete s key, none);
    invalidate_prefix = λ prefix s. (invalidate_items (keys_of s) s prefix, none);
  }
