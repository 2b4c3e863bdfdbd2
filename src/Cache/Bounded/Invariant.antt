-- ===== src/Cache/Bounded/Invariant.antt =====
-- The store's invariant: the list holds the map's keys, each once, and the bound holds.
use text.Mathlib.Text.{starts_with}
use goplusplus.Prelude.{
  ◌≡◌, refl, ◌≤◌, ◌<◌, String, List, [], ◌∷◌, none, some, arith, if◌then◌else◌, leb, leb→le, length,
  str_eq, eq_iff, Option-cases, Bool-cases, inl, inr,
}
use goplusplus.Prelude.Int.{ℤ, positive_or-pos}
use goplusplus.Prelude.Map.{
  lookup, lookup-delete, length-delete-le, length-delete_old, length-assign_new, length-assign_old,
}
use goplusplus.Prelude.Ordered.{Agree, Agree-push, Agree-update, Agree-delete, Agree-nil}
use goplusplus.Cache.Bounded.{
  BoundedStore, CacheItem, Call, sets, deletes, invalidates, new_bounded_store, delete_locked, push,
  set_new, set, invalidate_from, invalidate_prefix, step, run_calls, new_item,
}
use goplusplus.Cache.Bounded.Eviction.{evict_one_cases}

module _ {ℓ} {V : Type ℓ} where
  pub record IsValid (s : BoundedStore V) : Type ℓ where
    pub agree : Agree s.store s.keys_order
    pub bounded : length s.store ≤ s.max_entries
    pub positive : 0 < s.max_entries

  pub delete_locked-lookup :
      (s : BoundedStore V) (k j : String)
      → lookup (delete_locked s k).store j ≡ (if str_eq k j then none else lookup s.store j)
  unfolding delete_locked
  delete_locked-lookup s k j = ground (arith, lookup-delete s.store k j, eq_iff k j)

  pub delete_locked-IsValid :
      (s : BoundedStore V) (k : String)
      → IsValid s
      → IsValid (delete_locked s k) × ((delete_locked s k).max_entries ≡ s.max_entries)
  unfolding delete_locked
  delete_locked-IsValid s k v = elim (Option-cases (lookup s.store k)) [
    | inl absent ↦ rw (absent, delete_locked) (v, refl)
    | inr (item, present) ↦
        rw (present, delete_locked)
          (
            record {
              agree = Agree-delete k v.agree;
              bounded = omega (arith, length-delete-le s.store k, v.bounded);
              positive = v.positive;
            },
            refl,
          )
  ]

  delete_locked-fewer :
      (s : BoundedStore V) (k : String) (item : CacheItem V)
      → lookup s.store k ≡ some item
      → length (delete_locked s k).store < length s.store
  unfolding delete_locked
  delete_locked-fewer s k item present =
      rw (present, delete_locked) (length-delete_old s.store k item present)

  set_new-IsValid :
      (s : BoundedStore V) (key : String) (val : V) (ttl now stamp : ℤ)
      → lookup s.store key ≡ none
      → IsValid s
      → IsValid (set_new s key val ttl now stamp)
  unfolding set_new push
  set_new-IsValid s key val ttl now stamp absent v =
      elim (Bool-cases (leb s.max_entries (length s.store))) [
        | inr room ↦ rw room (record {
          agree = Agree-push key (new_item val ttl stamp) absent v.agree;
          bounded = ground (arith, length-assign_new s.store key (new_item val ttl stamp) absent);
          positive = v.positive;
        })
        | inl full ↦
            let (k, item, victim, present, evicted) =
              evict_one_cases s now v.agree (omega (arith, v.positive, leb→le _ _ full)) in
            let (v', same_max) = delete_locked-IsValid s k v in
            let fewer = delete_locked-fewer s k item present in
            let absent' : lookup (delete_locked s k).store key ≡ none =
              ground (arith, delete_locked-lookup s k key) in
            rw (full, evicted)
              (record {
                agree = Agree-push key (new_item val ttl stamp) absent' v'.agree;
                bounded = omega (
                  arith,
                  v.bounded,
                  length-assign_new (delete_locked s k).store key (new_item val ttl stamp) absent',
                );
                positive = v'.positive;
              })
      ]

  pub set-IsValid :
      (s : BoundedStore V) (key : String) (val : V) (ttl now stamp : ℤ)
      → IsValid s
      → IsValid (set s key val ttl now stamp)
  unfolding set
  set-IsValid s key val ttl now stamp v = elim (Option-cases (lookup s.store key)) [
    | inl absent ↦ rw (absent, set) (set_new-IsValid s key val ttl now stamp absent v)
    | inr (item, present) ↦
        rw (present, set)
          (record {
            agree = Agree-update key (new_item val ttl stamp) item present v.agree;
            bounded = omega (
              arith,
              v.bounded,
              length-assign_old s.store key (new_item val ttl stamp) item present,
            );
            positive = v.positive;
          })
  ]

  invalidate_from-IsValid :
      (keys : List String) (s : BoundedStore V) (prefix : String)
      → IsValid s
      → IsValid (invalidate_from keys s prefix)
  unfolding invalidate_from
  invalidate_from-IsValid [] s prefix v = v
  invalidate_from-IsValid (key ∷ keys) s prefix v = elim (Bool-cases (starts_with key prefix)) [
    | inl inside ↦ rw inside (
        invalidate_from-IsValid keys (delete_locked s key) prefix (delete_locked-IsValid s key v).0)
    | inr outside ↦ rw outside (invalidate_from-IsValid keys s prefix v)
  ]

  step-IsValid : (s : BoundedStore V) (c : Call V) → IsValid s → IsValid (step s c)
  unfolding step invalidate_prefix
  step-IsValid s (sets key val ttl now stamp) v = set-IsValid s key val ttl now stamp v
  step-IsValid s (deletes key) v = (delete_locked-IsValid s key v).0
  step-IsValid s (invalidates prefix) v = invalidate_from-IsValid s.keys_order s prefix v

  run_calls-IsValid_from :
      (s : BoundedStore V) (calls : List (Call V)) → IsValid s → IsValid (run_calls s calls)
  unfolding run_calls
  run_calls-IsValid_from s [] v = v
  run_calls-IsValid_from s (c ∷ calls) v =
      run_calls-IsValid_from (step s c) calls (step-IsValid s c v)

  pub run_calls-IsValid :
      (max_entries : ℤ) (calls : List (Call V))
      → IsValid (run_calls (new_bounded_store max_entries) calls)
  unfolding new_bounded_store
  run_calls-IsValid max_entries calls =
      run_calls-IsValid_from (new_bounded_store max_entries) calls (record {
        agree = Agree-nil;
        bounded = omega arith;
        positive = positive_or-pos max_entries 10000 (omega arith);
      })
