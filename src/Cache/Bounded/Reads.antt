-- ===== src/Cache/Bounded/Reads.antt =====
-- What a read returns after a change of the store, and what a change leaves in place.
use text.Mathlib.Text.{starts_with}
use goplusplus.Prelude.{
  ◌≡◌, refl, ◌⊎◌, ◌<◌, String, true, false, List, [], ◌∷◌, none, some, arith, if◌then◌else◌, leb,
  length, str_eq, eq_iff, Option-cases, inl, inr,
}
use goplusplus.Prelude.Int.{ℤ, pos, ◌+ℤ◌, ◌-ℤ◌, leb_ℤ}
use goplusplus.Prelude.Map.{lookup, lookup-assign, lookup-assign_self}
use goplusplus.Prelude.Ordered.{Agree, contains, is_some}
use goplusplus.Cache.Bounded.{
  BoundedStore, hit, miss, delete_locked, push, set_new, set, get_with_ttl, invalidate_from,
  new_item,
}
use goplusplus.Cache.Bounded.Eviction.{IsVictim, evict_one_cases}
use goplusplus.Cache.Bounded.Invariant.{IsValid, delete_locked-lookup}

module _ {ℓ} {V : Type ℓ} where
  set-lookup_self :
      (s : BoundedStore V) (key : String) (val : V) (ttl now stamp : ℤ)
      → lookup (set s key val ttl now stamp).store key ≡ some (new_item val ttl stamp)
  unfolding set set_new push
  set-lookup_self s key val ttl now stamp = elim (Option-cases (lookup s.store key)) [
    | inl absent ↦ rw (absent, set) (lookup-assign_self _ key (new_item val ttl stamp))
    | inr (item, present) ↦ rw (present, set) (lookup-assign_self _ key (new_item val ttl stamp))
  ]

  -- A read of a key that was just set, at any later or earlier time, misses if the lifetime has run
  -- out (or was not positive), and otherwise returns the value and the rest of its lifetime.
  pub get_with_ttl-set :
      (s : BoundedStore V) (key : String) (val : V) (ttl now stamp later : ℤ)
      → get_with_ttl (set s key val ttl now stamp) none key later
        ≡ (if leb_ℤ (stamp +ℤ ttl -ℤ later) (pos 0) then miss else hit val (stamp +ℤ ttl -ℤ later))
  unfolding get_with_ttl
  get_with_ttl-set s key val ttl now stamp later =
      rw (set-lookup_self s key val ttl now stamp, get_with_ttl) refl

  -- A set of a key that the store holds, or of any key while there is room, leaves every other key's
  -- item as it was.
  pub set-keeps :
      (s : BoundedStore V) (key : String) (val : V) (ttl now stamp : ℤ) (j : String)
      → (is_some (lookup s.store key) ≡ true) ⊎ (length s.store < s.max_entries)
      → str_eq key j ≡ false
      → lookup (set s key val ttl now stamp).store j ≡ lookup s.store j
  unfolding set set_new push
  set-keeps s key val ttl now stamp j room other = elim (Option-cases (lookup s.store key)) [
    | inr (item, present) ↦
        rw (present, set, lookup-assign s.store key (new_item val ttl stamp) j, other) refl
    | inl absent ↦
        let no_eviction : leb s.max_entries (length s.store) ≡ false = ground arith in
        rw (absent, set, no_eviction, lookup-assign s.store key (new_item val ttl stamp) j, other)
          refl
  ]

  -- A set of a new key in a full store takes out exactly one key: the first in the order of insertion
  -- that has expired, or the first of all if none has. Every other key's item is as it was.
  pub set-evicts :
      (s : BoundedStore V) (key : String) (val : V) (ttl now stamp : ℤ)
      → IsValid s
      → lookup s.store key ≡ none
      → length s.store ≡ s.max_entries
      → (k : String) × IsVictim s now k
        × ((j : String)
            → str_eq key j ≡ false
            → lookup (set s key val ttl now stamp).store j
              ≡ (if str_eq k j then none else lookup s.store j))
  unfolding set set_new push
  set-evicts s key val ttl now stamp v absent full =
      let at_bound : leb s.max_entries (length s.store) ≡ true = ground arith in
      let (k, item, victim, present, evicted) =
        evict_one_cases s now v.agree (omega (arith, v.positive, full)) in
      (
        k,
        victim,
        λ j other.
            rw
              (
                absent,
                set,
                at_bound,
                evicted,
                lookup-assign (delete_locked s k).store key (new_item val ttl stamp) j,
                other,
              )
              (delete_locked-lookup s k j),
      )

  invalidate_from-lookup :
      (keys : List String) (s : BoundedStore V) (prefix j : String)
      → lookup (invalidate_from keys s prefix).store j ≡ (
          if contains keys j
          then (if starts_with j prefix then none else lookup s.store j)
          else lookup s.store j)
  unfolding invalidate_from
  invalidate_from-lookup [] s prefix j = refl
  invalidate_from-lookup (key ∷ keys) s prefix j = ground (
    arith,
    eq_iff key j,
    delete_locked-lookup s key j,
    invalidate_from-lookup keys (delete_locked s key) prefix j,
    invalidate_from-lookup keys s prefix j,
  )

  -- In whatever order the keys of the map are ranged over, the invalidation of a prefix takes out every
  -- key that begins with it and leaves every other key's item as it was.
  pub invalidate_from-exact :
      (keys : List String) (s : BoundedStore V) (prefix j : String)
      → Agree s.store keys
      → lookup (invalidate_from keys s prefix).store j
        ≡ (if starts_with j prefix then none else lookup s.store j)
  invalidate_from-exact keys s prefix j a =
      ground (arith, a.same j, invalidate_from-lookup keys s prefix j)
