-- ===== src/Cache/Tiers/Tests.antt =====
-- Two memory stores as the levels, with the clock at 10.
use text.Mathlib.Text.{starts_with}
use goplusplus.Prelude.{ℕ, ◌≡◌, ◌⊎◌, refl, String, true, [], ◌∷◌, none, some, arith}
use goplusplus.Prelude.Int.{pos, ◌+ℤ◌, ◌-ℤ◌}
use goplusplus.Prelude.Map.{Map, lookup, assign, delete}
use goplusplus.Cache.Stores.{Store, Lawful}
use goplusplus.Cache.Memory.{
  MemoryItem, ContextError, canceled, set_item, get_item, invalidate_items, memory_store,
}
use goplusplus.Cache.Memory.Laws.{memory_laws, memory_store-KeepsOthers}
use goplusplus.Cache.Tiers.{
  found, absent, get_failed, read_l1, join_errors, get_with_remaining_ttl, populate, get_from_l2,
  multi_get, multi_set, multi_delete, multi_invalidate_prefix,
}
use goplusplus.Cache.Tiers.Coherence.{
  Coherent, IsAnswer, multi_get-IsAnswer, multi_set-Coherent, multi_delete-Coherent,
  multi_invalidate_prefix-Coherent, multi_get-multi_set,
}

program : Unit {0}
unfolding ◌+ℤ◌ ◌-ℤ◌ lookup assign delete set_item get_item invalidate_items memory_store memory_laws
    join_errors get_with_remaining_ttl populate get_from_l2 multi_get multi_set multi_delete
    multi_invalidate_prefix
program = tt

abbrev level : Store (Map (MemoryItem ℕ)) ℕ ContextError
level = memory_store none (pos 10)

abbrev laws : Lawful level
laws = memory_laws none (pos 10)

-- The first level is empty and the second has an item that lives for 90 more.
abbrev stored : Map (MemoryItem ℕ) × Map (MemoryItem ℕ)
stored = ([], ("user:1", record { val = 7; expires_at = pos 100 }) ∷ [])

reads_through :
    ((multi_get level level "user:1" stored).1 ≡ found 7)
    × ((multi_get level level "user:1" stored).0.0
        ≡ ("user:1", record { val = 7; expires_at = pos 100 }) ∷ [])
    × ((multi_get level level "user:2" stored).1 ≡ absent)
    × ((multi_get (memory_store (some canceled) (pos 10)) level "user:1" stored).1
        ≡ get_failed (read_l1 canceled))
unfolding program
reads_through = (refl, refl, refl, refl)

stored-Coherent : Coherent level level laws laws stored
unfolding program
stored-Coherent j v held = absurd (ground arith)

multi_get-IsAnswer_example :
    IsAnswer level level laws laws stored "user:1" (multi_get level level "user:1" stored).1
multi_get-IsAnswer_example =
    multi_get-IsAnswer level level laws laws "user:1" stored stored-Coherent

set_succeeds : (multi_set level level "user:2" 8 (pos 5) stored).1 ≡ none
unfolding program
set_succeeds = refl

set_in_both : Coherent level level laws laws (multi_set level level "user:2" 8 (pos 5) stored).0
set_in_both =
    multi_set-Coherent level level laws laws (memory_store-KeepsOthers none (pos 10)) "user:2" 8
      (pos 5) stored stored-Coherent set_succeeds

multi_get-multi_set_example :
    ((multi_get level level "user:2" (multi_set level level "user:2" 8 (pos 5) stored).0).1
      ≡ found 8)
    ⊎ ((e : ContextError) × ((multi_get level level "user:2"
            (multi_set level level "user:2" 8 (pos 5) stored).0).1
          ≡ get_failed (read_l1 e)))
multi_get-multi_set_example =
    multi_get-multi_set level level laws laws "user:2" 8 (pos 5) stored refl set_succeeds

delete_succeeds : (multi_delete level level "user:1" stored).1 ≡ none
unfolding program
delete_succeeds = refl

deleted_in_both :
    Coherent level level laws laws (multi_delete level level "user:1" stored).0
    × (laws.view (multi_delete level level "user:1" stored).0.0 "user:1" ≡ none)
    × (laws.view (multi_delete level level "user:1" stored).0.1 "user:1" ≡ none)
deleted_in_both =
    multi_delete-Coherent level level laws laws "user:1" stored stored-Coherent delete_succeeds

invalidate_succeeds : (multi_invalidate_prefix level level "user:" stored).1 ≡ none
unfolding program
invalidate_succeeds = refl

invalidated_in_both :
    Coherent level level laws laws (multi_invalidate_prefix level level "user:" stored).0
    × ((j : String)
        → starts_with j "user:" ≡ true
        → (laws.view (multi_invalidate_prefix level level "user:" stored).0.0 j ≡ none)
          × (laws.view (multi_invalidate_prefix level level "user:" stored).0.1 j ≡ none))
invalidated_in_both =
    multi_invalidate_prefix-Coherent level level laws laws "user:" stored stored-Coherent
      invalidate_succeeds
