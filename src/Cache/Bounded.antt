-- ===== src/Cache/Bounded.antt =====
-- cache/bounded.go, BoundedMemoryStore, for values of any type. The methods hold the lock from start
-- to end; each reading of the clock is an argument, a signed number of nanoseconds. `GetOrSet` is
-- left out.
pub mod Invariant
pub mod Eviction
pub mod Reads
mod Tests
use goplusplus.Prelude.{
  ℕ, String, Bool, true, false, List, [], ◌∷◌, ◌++◌, Option, none, some, if◌then◌else◌, leb, length,
}
use text.Mathlib.Text.{starts_with}
use goplusplus.Prelude.Int.{ℤ, pos, ◌+ℤ◌, ◌-ℤ◌, ltb_ℤ, leb_ℤ, positive_or}
use goplusplus.Prelude.Map.{Map, lookup, assign, delete}
use goplusplus.Prelude.Ordered.{remove}

pub record CacheItem {ℓ} (V : Type ℓ) : Type ℓ where
  pub val : V
  pub expires_at : ℤ

pub record BoundedStore {ℓ} (V : Type ℓ) : Type ℓ where
  pub store : Map (CacheItem V)
  pub keys_order : List String
  pub max_entries : ℕ

pub data ContextError : Type 0 where
  canceled deadline_exceeded : ContextError

-- The value with its remaining lifetime, a miss, or the context's error.
pub data GetResult {ℓ} (V : Type ℓ) : Type ℓ where
  hit : V → ℤ → GetResult V
  miss : GetResult V
  failed : ContextError → GetResult V

-- A call that changes the store, with all that it reads.
pub data Call {ℓ} (V : Type ℓ) : Type ℓ where
  sets : String → V → ℤ → ℤ → ℤ → Call V
  deletes : String → Call V
  invalidates : String → Call V

module _ {ℓ} {V : Type ℓ} where
  unfoldable pub new_bounded_store : ℤ → BoundedStore V
  new_bounded_store max_entries = record {
    store = [];
    keys_order = [];
    max_entries = positive_or max_entries 10000;
  }

  -- deleteLocked
  unfoldable pub delete_locked : BoundedStore V → String → BoundedStore V
  delete_locked s key = elim (lookup s.store key) [
    | none ↦ s
    | some entry ↦ record s { keys_order = remove s.keys_order key; store = delete s.store key }
  ]

  -- now.After(entry.item.expiresAt), at a key of the list
  abbrev pub is_stale : BoundedStore V → ℤ → String → Bool
  is_stale s now key = elim (lookup s.store key) [
    | none ↦ false
    | some item ↦ ltb_ℤ item.expires_at now
  ]

  -- The first pass of evictOneLocked: the first key of the list that has expired.
  unfoldable pub first_stale : List String → BoundedStore V → ℤ → Option String
  first_stale [] s now = none
  first_stale (key ∷ keys) s now =
      let rest = first_stale keys s now in if is_stale s now key then some key else rest

  -- The second pass: the oldest key.
  unfoldable pub evict_oldest : List String → BoundedStore V → BoundedStore V
  evict_oldest [] s = s
  evict_oldest (oldest ∷ keys) s = delete_locked s oldest

  unfoldable pub evict_one_locked : BoundedStore V → ℤ → BoundedStore V
  evict_one_locked s now = elim (first_stale s.keys_order s now) [
    | some key ↦ delete_locked s key
    | none ↦ evict_oldest s.keys_order s
  ]

  abbrev pub new_item : V → ℤ → ℤ → CacheItem V
  new_item val ttl stamp = record { val = val; expires_at = stamp +ℤ ttl }

  -- The end of Set: the key goes to the back of the list.
  unfoldable pub push : BoundedStore V → String → CacheItem V → BoundedStore V
  push s key item = record s {
    keys_order = s.keys_order ++ key ∷ [];
    store = assign s.store key item;
  }

  -- The eviction reads the clock, and then the new item does.
  unfoldable pub set_new : BoundedStore V → String → V → ℤ → ℤ → ℤ → BoundedStore V
  set_new s key val ttl now stamp =
      push (if leb s.max_entries (length s.store) then evict_one_locked s now else s) key
        (new_item val ttl stamp)

  unfoldable pub set : BoundedStore V → String → V → ℤ → ℤ → ℤ → BoundedStore V
  set s key val ttl now stamp = elim (lookup s.store key) [
    | some entry ↦ record s { store = assign s.store key (new_item val ttl stamp) }
    | none ↦ set_new s key val ttl now stamp
  ]

  unfoldable pub get_with_ttl : BoundedStore V → Option ContextError → String → ℤ → GetResult V
  get_with_ttl s (some e) key now = failed e
  get_with_ttl s none key now = elim (lookup s.store key) [
    | none ↦ miss
    | some item ↦
        let remaining = item.expires_at -ℤ now in
        if leb_ℤ remaining (pos 0) then miss else hit item.val remaining
  ]

  -- The loop of InvalidatePrefix over the keys that the map holds, in some order.
  unfoldable pub invalidate_from : List String → BoundedStore V → String → BoundedStore V
  invalidate_from [] s prefix = s
  invalidate_from (key ∷ keys) s prefix =
      invalidate_from keys (if starts_with key prefix then delete_locked s key else s) prefix

  -- The map is ranged over in the order of its keys' list; `invalidate_from` allows for any other.
  unfoldable pub invalidate_prefix : BoundedStore V → String → BoundedStore V
  invalidate_prefix s prefix = invalidate_from s.keys_order s prefix

  unfoldable pub step : BoundedStore V → Call V → BoundedStore V
  step s (sets key val ttl now stamp) = set s key val ttl now stamp
  step s (deletes key) = delete_locked s key
  step s (invalidates prefix) = invalidate_prefix s prefix

  unfoldable pub run_calls : BoundedStore V → List (Call V) → BoundedStore V
  run_calls s [] = s
  run_calls s (c ∷ cs) = run_calls (step s c) cs
