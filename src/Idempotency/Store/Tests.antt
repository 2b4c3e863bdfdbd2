-- ===== src/Idempotency/Store/Tests.antt =====
-- Runs of a store of two entries, and the theorems at them.
use goplusplus.Prelude.{
  ◌≡◌, ◌≢◌, refl, inr, String, true, false, [], ◌∷◌, none, some, arith, length, eq_iff,
}
use goplusplus.Prelude.Int.{pos, ◌+ℤ◌, ltb_ℤ, positive_or}
use goplusplus.Prelude.Map.{lookup, assign, delete}
use goplusplus.Prelude.Ordered.{remove}
use goplusplus.Idempotency.Store.{
  Entry, Store, Call, claims, completes, releases, IdempotencyResponse, pending, complete, ok, err,
  capacity_reached, ownership_lost, new_store, validate_input, memory_claim, delete_locked,
  remove_if_expired, remove_expired_from, remove_expired_locked, evict_completed_from,
  evict_completed_locked, admit_claim, claim_absent, claim_locked, claim, complete_locked,
  complete_claim, release_locked, release, step, run,
}
use goplusplus.Idempotency.Store.Invariant.{run-IsValid}
use goplusplus.Idempotency.Store.Exclusion.{claim-exclusive}
use goplusplus.Idempotency.Store.Replay.{claim-complete_claim, claim-capacity}

program : Unit {0}
unfolding positive_or ◌+ℤ◌ lookup assign delete remove new_store validate_input memory_claim
    delete_locked remove_if_expired remove_expired_from remove_expired_locked evict_completed_from
    evict_completed_locked admit_claim claim_absent claim_locked claim complete_locked
    complete_claim release_locked release step run
program = tt

abbrev created : IdempotencyResponse
created = record { status = 201; header = []; body = 1 ∷ 2 ∷ [] }

abbrev empty : Store
empty = new_store (pos 2)

abbrev first : Call
first = claims none "a" "f1" "alice" (pos 30) (pos 0)

abbrev second : Call
second = claims none "b" "f2" "bob" (pos 30) (pos 5)

abbrev two_pending : Store
two_pending = run empty (first ∷ second ∷ [])

third_refused : (claim two_pending none "c" "f3" "carol" (pos 30) (pos 10)).1 ≡ err capacity_reached
unfolding program
third_refused = refl

-- A completed entry makes room, and so does an expired one.
room_made :
    ((claim
        (step two_pending (completes none "a" "f1" "alice" created (pos 60) (pos 9)))
        none
        "c"
        "f3"
        "carol"
        (pos 30)
        (pos 10)).1
      ≡ ok (record { acquired = true; state = pending; fingerprint = "f3"; response = none }))
    × ((claim two_pending none "c" "f3" "carol" (pos 30) (pos 30)).1
        ≡ ok (record { acquired = true; state = pending; fingerprint = "f3"; response = none }))
    × ((release two_pending none "a" "bob").1 ≡ some ownership_lost)
unfolding program
room_made = (refl, refl, refl)

first_acquired :
    (claim empty none "a" "f1" "alice" (pos 30) (pos 0)).1
    ≡ ok (record { acquired = true; state = pending; fingerprint = "f1"; response = none })
unfolding program
first_acquired = refl

before_expiry : ltb_ℤ (pos 10) (pos 0 +ℤ pos 30) ≡ true
unfolding program
before_expiry = refl

second_in_time : ltb_ℤ (pos 5) (pos 0 +ℤ pos 30) ≡ true
unfolding program
second_in_time = refl

good_input : validate_input none "a" "f9" "bob" (pos 30) ≡ none
unfolding program
good_input = refl

bob-ne-alice : ◌≢◌ {A = String} "bob" "alice"
bob-ne-alice = ground (arith, eq_iff "bob" "alice")

claim-exclusive_example :
    (claim
      (run
        (claim empty none "a" "f1" "alice" (pos 30) (pos 0)).0
        (second ∷ releases none "a" "bob" ∷ []))
      none
      "a"
      "f9"
      "bob"
      (pos 30)
      (pos 10)).1
    ≡ ok (record { acquired = false; state = pending; fingerprint = "f1"; response = none })
claim-exclusive_example =
    claim-exclusive empty none none "a" "f1" "alice" "f9" "bob" (pos 30) (pos 0) (pos 30) (pos 10)
      (record { acquired = true; state = pending; fingerprint = "f1"; response = none })
      (second ∷ releases none "a" "bob" ∷ []) first_acquired refl
      (second_in_time, (inr bob-ne-alice, tt)) good_input before_expiry

abbrev one_pending : Store
one_pending = step empty first

first_completed :
    (complete_claim one_pending none "a" "f1" "alice" created (pos 60) (pos 9)).1 ≡ none
unfolding program
first_completed = refl

response_in_time : ltb_ℤ (pos 10) (pos 9 +ℤ pos 60) ≡ true
unfolding program
response_in_time = refl

claim-complete_claim_example :
    (claim
      (complete_claim one_pending none "a" "f1" "alice" created (pos 60) (pos 9)).0
      none
      "a"
      "f9"
      "bob"
      (pos 30)
      (pos 10)).1
    ≡ ok
        (record { acquired = false; state = complete; fingerprint = "f1"; response = some created })
claim-complete_claim_example =
    claim-complete_claim one_pending none none "a" "f1" "alice" "f9" "bob" created (pos 60) (pos 9)
      (pos 30) (pos 10) first_completed good_input response_in_time

claim_when_full :
    let left = remove_expired_locked (run (new_store (pos 2)) (first ∷ second ∷ [])) (pos 10) in
    (length left.entries ≡ (run (new_store (pos 2)) (first ∷ second ∷ [])).max_entries)
    × ((k : String) (entry : Entry) → lookup left.entries k ≡ some entry → entry.state ≡ pending)
claim_when_full =
    claim-capacity (run (new_store (pos 2)) (first ∷ second ∷ [])) none "c" "f3" "carol" (pos 30)
      (pos 10) (run-IsValid (pos 2) (first ∷ second ∷ [])) third_refused
