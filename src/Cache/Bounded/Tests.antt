-- ===== src/Cache/Bounded/Tests.antt =====
-- A store of two entries, and the theorems at it.
use text.Mathlib.Text.{starts_with}
use goplusplus.Prelude.{
  ℕ, ◌≡◌, refl, inr, ◌<◌, String, false, List, [], ◌∷◌, none, some, arith, if◌then◌else◌, str_eq,
  length,
}
use goplusplus.Prelude.Int.{pos, negsuc, ◌+ℤ◌, ◌-ℤ◌, leb_ℤ, positive_or}
use goplusplus.Prelude.Map.{lookup, assign, delete}
use goplusplus.Prelude.Ordered.{remove}
use goplusplus.Cache.Bounded.{
  BoundedStore, Call, sets, deletes, hit, miss, failed, deadline_exceeded, new_bounded_store,
  delete_locked, first_stale, evict_oldest, evict_one_locked, push, set_new, set, get_with_ttl,
  invalidate_from, invalidate_prefix, step, run_calls,
}
use goplusplus.Cache.Bounded.Eviction.{IsVictim}
use goplusplus.Cache.Bounded.Invariant.{IsValid, run_calls-IsValid}
use goplusplus.Cache.Bounded.Reads.{get_with_ttl-set, set-keeps, set-evicts, invalidate_from-exact}

program : Unit {0}
unfolding positive_or ◌+ℤ◌ ◌-ℤ◌ lookup assign delete remove new_bounded_store delete_locked
    first_stale evict_oldest evict_one_locked push set_new set get_with_ttl invalidate_from
    invalidate_prefix step run_calls
program = tt

abbrev calls : List (Call ℕ)
calls = sets "user:1" 7 (pos 100) (pos 0) (pos 1) ∷ sets "user:2" 8 (pos 10) (pos 2) (pos 3) ∷ []

abbrev full : BoundedStore ℕ
full = run_calls (new_bounded_store (pos 2)) calls

abbrev one : BoundedStore ℕ
one = step full (deletes "user:1")

-- At 20 "user:2" has expired; at 5 nothing has, and the oldest key goes.
evicted :
    ((set full "x" 9 (pos 50) (pos 20) (pos 21)).keys_order ≡ "user:1" ∷ "x" ∷ [])
    × ((set full "x" 9 (pos 50) (pos 5) (pos 6)).keys_order ≡ "user:2" ∷ "x" ∷ [])
unfolding program
evicted = (refl, refl)

reads :
    (get_with_ttl full none "user:2" (pos 12) ≡ hit 8 (pos 1))
    × (get_with_ttl full none "user:2" (pos 13) ≡ miss)
    × (get_with_ttl full (some deadline_exceeded) "user:2" (pos 12) ≡ failed deadline_exceeded)
    × ((invalidate_prefix full "user:").store ≡ [])
    × ((new_bounded_store {V = ℕ} (negsuc 0)).max_entries ≡ 10000)
unfolding program
reads = (refl, refl, refl, refl, refl)

read_after_write : get_with_ttl (set full "x" 9 (pos 50) (pos 20) (pos 21)) none "x" (pos 30) ≡ (
    if leb_ℤ (pos 21 +ℤ pos 50 -ℤ pos 30) (pos 0) then miss else hit 9 (pos 21 +ℤ pos 50 -ℤ pos 30))
read_after_write = get_with_ttl-set full "x" 9 (pos 50) (pos 20) (pos 21) (pos 30)

one_has_room : length one.store < one.max_entries
unfolding program
one_has_room = omega arith

other_key_kept :
    lookup (set one "x" 9 (pos 50) (pos 20) (pos 21)).store "user:2" ≡ lookup one.store "user:2"
other_key_kept = set-keeps one "x" 9 (pos 50) (pos 20) (pos 21) "user:2" (inr one_has_room) refl

full-IsValid : IsValid full
full-IsValid = run_calls-IsValid (pos 2) calls

x_absent : lookup full.store "x" ≡ none
unfolding program
x_absent = refl

at_bound : length full.store ≡ full.max_entries
unfolding program
at_bound = refl

set-evicts_example :
    (k : String) × IsVictim full (pos 20) k
    × ((j : String)
        → str_eq "x" j ≡ false
        → lookup (set full "x" 9 (pos 50) (pos 20) (pos 21)).store j
          ≡ (if str_eq k j then none else lookup full.store j))
set-evicts_example = set-evicts full "x" 9 (pos 50) (pos 20) (pos 21) full-IsValid x_absent at_bound

prefix_removed :
    lookup (invalidate_from full.keys_order full "user:").store "user:2"
    ≡ (if starts_with "user:2" "user:" then none else lookup full.store "user:2")
prefix_removed = invalidate_from-exact full.keys_order full "user:" "user:2" full-IsValid.agree
