-- ===== src/Idempotency/Store/Invariant.antt =====
-- The store's invariant: the order list and the map agree, and the bound holds.
use goplusplus.Prelude.{
  ◌≡◌, refl, ◌≤◌, ◌<◌, String, true, List, [], ◌∷◌, Option, none, some, arith, leb, length,
  Option-cases, Bool-cases, inl, inr,
}
use goplusplus.Prelude.Int.{ℤ, positive_or-pos}
use goplusplus.Prelude.Map.{
  lookup, assign, length-delete-le, length-delete_old, length-assign_new, length-assign_old,
}
use goplusplus.Prelude.Ordered.{Agree, Agree-push, Agree-update, Agree-delete, Agree-nil}
use goplusplus.Idempotency.Store.{
  ContextError, Entry, Store, Call, claims, completes, releases, IdempotencyResponse, new_store,
  delete_locked, remove_if_expired, remove_expired_from, remove_expired_locked, admit_claim,
  claim_absent, claim_locked, claim, complete_locked, complete_claim, release_locked, release, step,
  run, is_complete_at, is_held,
}
use goplusplus.Idempotency.Store.Removal.{evict_completed_cases, lookup-delete_locked}

pub record IsValid (s : Store) : Type 0 where
  pub agree : Agree s.entries s.order
  pub bounded : length s.entries ≤ s.max_entries
  pub positive : 0 < s.max_entries

-- `t` comes from `s` by removals.
record Shrinks (s t : Store) : Type 0 where
  agree : Agree t.entries t.order
  fewer : length t.entries ≤ length s.entries
  same_max : t.max_entries ≡ s.max_entries

Shrinks-IsValid : {s t : Store} → IsValid s → Shrinks s t → IsValid t
Shrinks-IsValid v h = record { agree = h.agree; bounded = omega arith; positive = omega arith }

Shrinks-refl : (s : Store) → Agree s.entries s.order → Shrinks s s
Shrinks-refl s a = record { agree = a; fewer = omega arith; same_max = refl }

delete_locked-Shrinks :
    (s : Store) (k : String) → Agree s.entries s.order → Shrinks s (delete_locked s k)
unfolding delete_locked
delete_locked-Shrinks s k a = elim (Option-cases (lookup s.entries k)) [
  | inl absent ↦ rw (absent, delete_locked) (Shrinks-refl s a)
  | inr (entry, present) ↦
      rw (present, delete_locked)
        (record { agree = Agree-delete k a; fewer = length-delete-le s.entries k; same_max = refl })
]

remove_if_expired-Shrinks :
    (s : Store) (now : ℤ) (k : String)
    → Agree s.entries s.order
    → Shrinks s (remove_if_expired s now k)
unfolding remove_if_expired
remove_if_expired-Shrinks s now k a = ground (arith, delete_locked-Shrinks s k a, Shrinks-refl s a)

remove_expired_from-Shrinks :
    (keys : List String) (s : Store) (now : ℤ)
    → Agree s.entries s.order
    → Shrinks s (remove_expired_from keys s now)
unfolding remove_expired_from
remove_expired_from-Shrinks [] s now a = Shrinks-refl s a
remove_expired_from-Shrinks (k ∷ keys) s now a =
    let first = remove_if_expired-Shrinks s now k a in
    let rest = remove_expired_from-Shrinks keys (remove_if_expired s now k) now first.agree in
    record { agree = rest.agree; fewer = omega arith; same_max = omega arith }

pub remove_expired-IsValid :
    (s : Store) (now : ℤ)
    → IsValid s
    → IsValid (remove_expired_locked s now)
      × ((remove_expired_locked s now).max_entries ≡ s.max_entries)
unfolding remove_expired_locked
remove_expired-IsValid s now v =
    let swept = remove_expired_from-Shrinks s.order s now v.agree in
    (Shrinks-IsValid v swept, swept.same_max)

delete_locked-fewer :
    (s : Store) (k : String)
    → is_complete_at s k ≡ true
    → length (delete_locked s k).entries < length s.entries
unfolding delete_locked
delete_locked-fewer s k complete = elim (Option-cases (lookup s.entries k)) [
  | inl absent ↦ absurd (ground arith)
  | inr (entry, present) ↦ rw (present, delete_locked) (length-delete_old s.entries k entry present)
]

admit_claim-IsValid :
    (s : Store) (key fingerprint owner : String) (ttl now : ℤ)
    → Agree s.entries s.order
    → lookup s.entries key ≡ none
    → length s.entries < s.max_entries
    → IsValid (admit_claim s key fingerprint owner ttl now).0
unfolding admit_claim
admit_claim-IsValid s key fingerprint owner ttl now a absent room = record {
  agree = Agree-push key _ absent a;
  bounded = omega (arith, length-assign_new s.entries key _ absent);
  positive = omega arith;
}

claim_absent-IsValid :
    (s : Store) (key fingerprint owner : String) (ttl now : ℤ)
    → IsValid s
    → lookup s.entries key ≡ none
    → IsValid (claim_absent s key fingerprint owner ttl now).0
unfolding claim_absent
claim_absent-IsValid s key fingerprint owner ttl now v absent =
    elim (Bool-cases (leb s.max_entries (length s.entries))) [
      | inr room ↦
          rw (room, claim_absent)
            (admit_claim-IsValid s key fingerprint owner ttl now v.agree absent (ground arith))
      | inl full ↦ elim (evict_completed_cases s) [
        | inl none_evicted ↦ rw (full, none_evicted, claim_absent) v
        | inr (k, complete, evicted) ↦
            let smaller = delete_locked-Shrinks s k v.agree in
            let fewer = delete_locked-fewer s k complete in
            rw (full, evicted, claim_absent)
              (admit_claim-IsValid (delete_locked s k) key fingerprint owner ttl now smaller.agree
                (ground (arith, lookup-delete_locked s k key)) (omega arith))
      ]
    ]

claim_locked-IsValid :
    (s : Store) (key fingerprint owner : String) (ttl now : ℤ)
    → IsValid s
    → IsValid (claim_locked s key fingerprint owner ttl now).0
unfolding claim_locked remove_expired_locked
claim_locked-IsValid s key fingerprint owner ttl now v =
    let swept = remove_expired_from s.order s now in
    let v' = Shrinks-IsValid v (remove_expired_from-Shrinks s.order s now v.agree) in
    elim (Option-cases (lookup swept.entries key)) [
      | inl absent ↦
          rw (absent, claim_locked)
            (claim_absent-IsValid swept key fingerprint owner ttl now v' absent)
      | inr (entry, present) ↦ rw (present, claim_locked) v'
    ]

update-IsValid :
    (s : Store) (key : String) (new old : Entry)
    → lookup s.entries key ≡ some old
    → IsValid s
    → IsValid (record s { entries = assign s.entries key new })
update-IsValid s key new old present v = record {
  agree = Agree-update key new old present v.agree;
  bounded = omega (arith, v.bounded, length-assign_old s.entries key new old present);
  positive = v.positive;
}

complete_locked-IsValid :
    (s : Store) (key fingerprint owner : String) (response : IdempotencyResponse) (ttl now : ℤ)
    → IsValid s
    → IsValid (complete_locked s key fingerprint owner response ttl now).0
unfolding complete_locked
complete_locked-IsValid s key fingerprint owner response ttl now v =
    elim (Option-cases (lookup s.entries key)) [
      | inl absent ↦ rw (absent, complete_locked) v
      | inr (entry, present) ↦ elim (Bool-cases (is_held entry fingerprint owner)) [
        | inl held ↦ rw (present, complete_locked, held) (update-IsValid s key _ entry present v)
        | inr other ↦ rw (present, complete_locked, other) v
      ]
    ]

release-IsValid :
    (s : Store) (ctx : Option ContextError) (key owner : String)
    → IsValid s
    → IsValid (release s ctx key owner).0
unfolding release release_locked
release-IsValid s ctx key owner v =
    ground (arith, Shrinks-IsValid v (delete_locked-Shrinks s key v.agree))

pub step-IsValid : (s : Store) (c : Call) → IsValid s → IsValid (step s c)
unfolding step claim complete_claim
step-IsValid s (claims ctx key fingerprint owner ttl now) v =
    ground (arith, claim_locked-IsValid s key fingerprint owner ttl now v)
step-IsValid s (completes ctx key fingerprint owner response ttl now) v =
    ground (arith, complete_locked-IsValid s key fingerprint owner response ttl now v)
step-IsValid s (releases ctx key owner) v = release-IsValid s ctx key owner v

run-IsValid_from : (s : Store) (calls : List Call) → IsValid s → IsValid (run s calls)
unfolding run
run-IsValid_from s [] v = v
run-IsValid_from s (c ∷ calls) v = run-IsValid_from (step s c) calls (step-IsValid s c v)

pub run-IsValid :
    (max_entries : ℤ) (calls : List Call) → IsValid (run (new_store max_entries) calls)
unfolding new_store
run-IsValid max_entries calls = run-IsValid_from (new_store max_entries) calls (record {
  agree = Agree-nil;
  bounded = omega arith;
  positive = positive_or-pos max_entries 10000 (omega arith);
})
