-- ===== src/Cache/Bounded/Eviction.antt =====
-- Which key an eviction takes out.
use text.Mathlib.TextPositions.{eq_refl}
use goplusplus.Prelude.{
  ◌≡◌, refl, ap, sym, subst, ◌⊎◌, ◌<◌, String, true, false, List, [], ◌∷◌, ◌++◌, none, some, arith,
  length, All, Option-cases, Bool-cases, inl, inr,
}
use goplusplus.Prelude.Int.{ℤ}
use goplusplus.Prelude.Map.{Map, lookup}
use goplusplus.Prelude.Ordered.{Agree, contains}
use goplusplus.Cache.Bounded.{
  BoundedStore, CacheItem, delete_locked, is_stale, first_stale, evict_oldest, evict_one_locked,
}

contains-middle :
    (before after : List String) (k : String) → contains (before ++ k ∷ after) k ≡ true
contains-middle [] after k = rw (eq_refl k)
contains-middle (j ∷ before) after k = ground (arith, contains-middle before after k)

module _ {ℓ} {V : Type ℓ} where
  -- The first key of the list that has expired; if none has, the first key of the list.
  abbrev pub IsVictim : BoundedStore V → ℤ → String → Type 0
  IsVictim s now k =
      (before : List String) × (after : List String) × (s.keys_order ≡ before ++ k ∷ after)
      × All (λ j. is_stale s now j ≡ false) before
      × ((is_stale s now k ≡ true)
          ⊎ ((before ≡ []) × All (λ j. is_stale s now j ≡ false) s.keys_order))

  first_stale-some :
      (keys : List String) (s : BoundedStore V) (now : ℤ) (k : String)
      → first_stale keys s now ≡ some k
      → (before : List String) × (after : List String) × (keys ≡ before ++ k ∷ after)
        × All (λ j. is_stale s now j ≡ false) before
        × (is_stale s now k ≡ true)
  unfolding first_stale
  first_stale-some [] s now k found = absurd (ground arith)
  first_stale-some (key ∷ keys) s now k found = elim (Bool-cases (is_stale s now key)) [
    | inl here ↦
        let same : key ≡ k = ground arith in
        (
          [],
          keys,
          ap (λ (x : String). x ∷ keys) same,
          tt,
          subst (λ (x : String). is_stale s now x ≡ true) same here,
        )
    | inr other ↦
        let (before, after, split, fresh, stale) = first_stale-some keys s now k (ground arith) in
        (key ∷ before, after, ap (◌∷◌ key) split, (other, fresh), stale)
  ]

  first_stale-none :
      (keys : List String) (s : BoundedStore V) (now : ℤ)
      → first_stale keys s now ≡ none
      → All (λ j. is_stale s now j ≡ false) keys
  unfolding first_stale
  first_stale-none [] s now nothing = tt
  first_stale-none (key ∷ keys) s now nothing = elim (Bool-cases (is_stale s now key)) [
    | inl here ↦ absurd (ground arith)
    | inr other ↦ (other, first_stale-none keys s now (ground arith))
  ]

  nothing_listed : (m : Map (CacheItem V)) → Agree m [] → length m ≡ 0
  unfolding lookup
  nothing_listed [] a = refl
  nothing_listed ((key, item) ∷ m) a = absurd (ground (arith, a.same key, eq_refl key))

  -- A listed key has an item.
  listed :
      (s : BoundedStore V) (k : String)
      → Agree s.store s.keys_order
      → contains s.keys_order k ≡ true
      → (item : CacheItem V) × (lookup s.store k ≡ some item)
  listed s k a inside = elim (Option-cases (lookup s.store k)) [
    | inl absent ↦ absurd (ground (arith, a.same k))
    | inr (item, present) ↦ (item, present)
  ]

  evict_oldest_cases :
      (keys : List String) (s : BoundedStore V)
      → s.keys_order ≡ keys
      → Agree s.store s.keys_order
      → 0 < length s.store
      → (k : String) × (rest : List String) × (keys ≡ k ∷ rest)
        × (evict_oldest keys s ≡ delete_locked s k)
  unfolding evict_oldest
  evict_oldest_cases [] s e a some_entry =
      absurd
        (omega (arith, nothing_listed s.store (subst (λ (l : List String). Agree s.store l) e a)))
  evict_oldest_cases (k ∷ rest) s e a some_entry = (k, rest, refl, refl)

  -- The eviction from a store with an entry takes out the victim, which is there.
  pub evict_one_cases :
      (s : BoundedStore V) (now : ℤ)
      → Agree s.store s.keys_order
      → 0 < length s.store
      → (k : String) × (item : CacheItem V) × IsVictim s now k
        × (lookup s.store k ≡ some item)
        × (evict_one_locked s now ≡ delete_locked s k)
  unfolding evict_one_locked
  evict_one_cases s now a some_entry = elim (Option-cases (first_stale s.keys_order s now)) [
    | inr (k, found) ↦
        let (before, after, split, fresh, stale) = first_stale-some s.keys_order s now k found in
        let (item, present) = listed s k a (
          subst (λ (l : List String). contains l k ≡ true) (sym split)
            (contains-middle before after k)) in
        (k, item, (before, after, split, fresh, inl stale), present, rw (found, evict_one_locked))
    | inl nothing ↦
        let (k, rest, split, evicted) = evict_oldest_cases s.keys_order s refl a some_entry in
        let (item, present) = listed s k a (
          subst (λ (l : List String). contains l k ≡ true) (sym split)
            (contains-middle [] rest k)) in
        (
          k,
          item,
          ([], rest, split, tt, inr (refl, first_stale-none s.keys_order s now nothing)),
          present,
          rw (nothing, evict_one_locked) evicted,
        )
  ]
