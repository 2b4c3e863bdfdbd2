-- ===== src/Idempotency/Store/Removal.antt =====
-- What the sweep of expired entries and the eviction of a completed one leave behind.
use goplusplus.Prelude.{
  ◌≡◌, refl, subst, ◌⊎◌, String, true, false, List, [], ◌∷◌, Option, none, some, arith,
  if◌then◌else◌, str_eq, eq_iff, Bool-cases, inl, inr,
}
use goplusplus.Prelude.Int.{ℤ, ltb_ℤ}
use goplusplus.Prelude.Map.{lookup, lookup-delete}
use goplusplus.Prelude.Ordered.{contains}
use goplusplus.Idempotency.Store.{
  Entry, Store, is_expired, delete_locked, remove_if_expired, remove_expired_from,
  remove_expired_locked, is_complete_at, evict_completed_from, evict_completed_locked,
}

pub lookup-delete_locked :
    (s : Store) (k j : String)
    → lookup (delete_locked s k).entries j ≡ (if str_eq k j then none else lookup s.entries j)
unfolding delete_locked
lookup-delete_locked s k j = ground (arith, lookup-delete s.entries k j, eq_iff k j)

-- What is left of an entry by a sweep at `now`.
abbrev pub live : ℤ → Option Entry → Option Entry
live now none = none
live now (some entry) = if is_expired now entry then none else some entry

lookup-remove_if_expired :
    (s : Store) (now : ℤ) (k j : String)
    → lookup (remove_if_expired s now k).entries j
      ≡ (if str_eq k j then live now (lookup s.entries j) else lookup s.entries j)
unfolding remove_if_expired
lookup-remove_if_expired s now k j = ground (arith, lookup-delete_locked s k j, eq_iff k j)

lookup-remove_expired_from :
    (keys : List String) (s : Store) (now : ℤ) (j : String)
    → lookup (remove_expired_from keys s now).entries j
      ≡ (if contains keys j then live now (lookup s.entries j) else lookup s.entries j)
unfolding remove_expired_from
lookup-remove_expired_from [] s now j = refl
lookup-remove_expired_from (k ∷ keys) s now j = ground (
  arith,
  lookup-remove_expired_from keys (remove_if_expired s now k) now j,
  lookup-remove_if_expired s now k j,
)

-- An entry that has not expired survives a sweep.
pub lookup-remove_expired_live :
    (s : Store) (now : ℤ) (j : String) (entry : Entry)
    → lookup s.entries j ≡ some entry
    → ltb_ℤ now entry.expires_at ≡ true
    → lookup (remove_expired_locked s now).entries j ≡ some entry
unfolding remove_expired_locked
lookup-remove_expired_live s now j entry found fresh =
    ground (arith, lookup-remove_expired_from s.order s now j)

-- A sweep adds nothing.
pub lookup-remove_expired_some :
    (s : Store) (now : ℤ) (j : String) (entry : Entry)
    → lookup (remove_expired_locked s now).entries j ≡ some entry
    → lookup s.entries j ≡ some entry
unfolding remove_expired_locked
lookup-remove_expired_some s now j entry found =
    ground (arith, lookup-remove_expired_from s.order s now j)

-- With no eviction nothing changes, and with one a completed entry goes.
evict_completed_from_cases :
    (keys : List String) (s : Store)
    → (evict_completed_from keys s ≡ (s, false))
      ⊎ ((k : String) × (is_complete_at s k ≡ true)
          × (evict_completed_from keys s ≡ (delete_locked s k, true)))
unfolding evict_completed_from
evict_completed_from_cases [] s = inl refl
evict_completed_from_cases (k ∷ keys) s = elim (Bool-cases (is_complete_at s k)) [
  | inl here ↦ inr (k, here, rw here)
  | inr other ↦ rw other (evict_completed_from_cases keys s)
]

pub evict_completed_cases :
    (s : Store)
    → (evict_completed_locked s ≡ (s, false))
      ⊎ ((k : String) × (is_complete_at s k ≡ true)
          × (evict_completed_locked s ≡ (delete_locked s k, true)))
unfolding evict_completed_locked
evict_completed_cases s = evict_completed_from_cases s.order s

evict_completed_from-false :
    (keys : List String) (s : Store) (j : String)
    → (evict_completed_from keys s).1 ≡ false
    → contains keys j ≡ true
    → is_complete_at s j ≡ false
unfolding evict_completed_from
evict_completed_from-false [] s j kept inside = cc
evict_completed_from-false (k ∷ keys) s j kept inside = elim (Bool-cases (str_eq k j)) [
  | inl same ↦
      subst (λ (x : String). is_complete_at s x ≡ false) ((eq_iff k j).0 same) (ground arith)
  | inr other ↦ evict_completed_from-false keys s j (ground arith) (ground arith)
]

-- If nothing is evicted, no key of the list has a completed entry.
pub evict_completed-false :
    (s : Store) (j : String)
    → (evict_completed_locked s).1 ≡ false
    → contains s.order j ≡ true
    → is_complete_at s j ≡ false
unfolding evict_completed_locked
evict_completed-false s j kept inside = evict_completed_from-false s.order s j kept inside
