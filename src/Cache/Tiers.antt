-- ===== src/Cache/Tiers.antt =====
-- cache/cache.go, MultiLevelStore, over any two stores. The GetOrSet of the two levels, which is
-- coalesced by the singleflight package, is left out.
pub mod Coherence
mod Tests
use goplusplus.Prelude.{String, Bool, Option, none, some, if◌then◌else◌}
use goplusplus.Prelude.Int.{ℤ, pos, ltb_ℤ}
use goplusplus.Cache.Stores.{Store, Read, hit, miss, failed}

-- Which step failed. `joined` is errors.Join of the two levels' errors.
pub data TierError {ℓ} (E : Type ℓ) : Type ℓ where
  read_l1 : E → TierError E
  read_l2 : E → TierError E
  populate_l1 : E → TierError E
  write_l2 : E → TierError E
  write_l1 : E → TierError E
  joined : Option E → Option E → TierError E

pub data Got {ℓ} (V E : Type ℓ) : Type ℓ where
  found : V → Got V E
  absent : Got V E
  get_failed : TierError E → Got V E

-- min(remaining, 5*time.Minute)
abbrev pub capped : ℤ → ℤ
capped remaining = if ltb_ℤ remaining (pos 300_000_000_000) then remaining else pos 300_000_000_000

unfoldable pub join_errors {ℓ} : {E : Type ℓ} → Option E → Option E → Option (TierError E)
join_errors none none = none
join_errors none (some e) = some (joined none (some e))
join_errors (some e) err = some (joined (some e) err)

abbrev pub without_ttl {ℓ} : {V E : Type ℓ} → Read V E → Read V E
without_ttl (hit v ttl) = hit v (pos 0)
without_ttl miss = miss
without_ttl (failed e) = failed e

-- getWithRemainingTTL
unfoldable pub get_with_remaining_ttl {ℓ} :
    {S V E : Type ℓ} → Store S V E → String → S → S × Read V E
get_with_remaining_ttl store key s =
    let (s', r) = store.get_with_ttl key s in (s', if store.has_ttl then r else without_ttl r)

module _ {ℓ} {S1 S2 V E : Type ℓ} (l1 : Store S1 V E) (l2 : Store S2 V E) where
  -- A value found in the second level is put into the first for the rest of its lifetime.
  unfoldable pub populate : String → V → ℤ → S1 → S2 → (S1 × S2) × Got V E
  populate key val remaining s1 s2 =
      let (s1', err) = l1.set key val (capped remaining) s1 in
      if ltb_ℤ (pos 0) remaining
      then elim err [
        | none ↦ ((s1', s2), found val)
        | some e ↦ ((s1', s2), get_failed (populate_l1 e))
      ]
      else ((s1, s2), found val)

  unfoldable pub get_from_l2 : String → S1 → S2 → (S1 × S2) × Got V E
  get_from_l2 key s1 s2 =
      let (s2', r) = get_with_remaining_ttl l2 key s2 in
      elim r [
        | hit val remaining ↦ populate key val remaining s1 s2'
        | miss ↦ ((s1, s2'), absent)
        | failed e ↦ ((s1, s2'), get_failed (read_l2 e))
      ]

  unfoldable pub multi_get : String → S1 × S2 → (S1 × S2) × Got V E
  multi_get key s =
      let (s1', r) = l1.get_with_ttl key s.0 in
      elim r [
        | hit val remaining ↦ ((s1', s.1), found val)
        | miss ↦ get_from_l2 key s1' s.1
        | failed e ↦ ((s1', s.1), get_failed (read_l1 e))
      ]

  unfoldable pub multi_set : String → V → ℤ → S1 × S2 → (S1 × S2) × Option (TierError E)
  multi_set key val ttl s =
      let (s2', err2) = l2.set key val ttl s.1 in
      elim err2 [
        | some e ↦ ((s.0, s2'), some (write_l2 e))
        | none ↦
            let (s1', err1) = l1.set key val ttl s.0 in
            elim err1 [ some e ↦ ((s1', s2'), some (write_l1 e)) | none ↦ ((s1', s2'), none) ]
      ]

  unfoldable pub multi_delete : String → S1 × S2 → (S1 × S2) × Option (TierError E)
  multi_delete key s =
      let (s1', err1) = l1.delete key s.0 in
      let (s2', err2) = l2.delete key s.1 in ((s1', s2'), join_errors err1 err2)

  unfoldable pub multi_invalidate_prefix : String → S1 × S2 → (S1 × S2) × Option (TierError E)
  multi_invalidate_prefix prefix s =
      let (s1', err1) = l1.invalidate_prefix prefix s.0 in
      let (s2', err2) = l2.invalidate_prefix prefix s.1 in ((s1', s2'), join_errors err1 err2)
