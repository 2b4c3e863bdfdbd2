-- ===== src/Idempotency/Store/Replay.antt =====
-- Completion, replay, and the refusal of a claim for want of room.
use goplusplus.Prelude.{
  ◌≡◌, ◌∙◌, ◌≤◌, inl, inr, String, true, false, Option, none, some, arith, length, eq_iff,
  Option-cases, Bool-cases,
}
use goplusplus.Prelude.Int.{ℤ, ◌+ℤ◌, ltb_ℤ}
use goplusplus.Prelude.Map.{lookup, lookup-assign_self}
use goplusplus.Idempotency.Store.{
  ContextError, Entry, Store, IdempotencyResponse, pending, complete, ok, err, capacity_reached,
  validate_input, memory_claim, remove_expired_locked, evict_completed_locked, admit_claim,
  claim_absent, claim_locked, claim, complete_locked, complete_claim, is_held,
}
use goplusplus.Idempotency.Store.Removal.{lookup-remove_expired_live, evict_completed-false}
use goplusplus.Idempotency.Store.Invariant.{IsValid, remove_expired-IsValid}

abbrev completed_entry : String → String → IdempotencyResponse → ℤ → Entry
completed_entry fingerprint owner response expiry = record {
  fingerprint = fingerprint;
  owner = owner;
  state = complete;
  response = some response;
  expires_at = expiry;
}

is_held-fingerprint :
    (entry : Entry) (fingerprint owner : String)
    → is_held entry fingerprint owner ≡ true
    → (entry.fingerprint ≡ fingerprint) × (entry.owner ≡ owner)
is_held-fingerprint entry fingerprint owner h =
    ground (arith, eq_iff entry.fingerprint fingerprint, eq_iff entry.owner owner)

complete_locked-done :
    (s : Store) (key fingerprint owner : String) (response : IdempotencyResponse) (ttl now : ℤ)
    → (complete_locked s key fingerprint owner response ttl now).1 ≡ none
    → lookup (complete_locked s key fingerprint owner response ttl now).0.entries key
      ≡ some (completed_entry fingerprint owner response (now +ℤ ttl))
unfolding complete_locked
complete_locked-done s key fingerprint owner response ttl now done =
    elim (Option-cases (lookup s.entries key)) [
      | inl absent ↦ absurd (ground arith)
      | inr (entry, present) ↦ elim (Bool-cases (is_held entry fingerprint owner)) [
        | inr lost ↦ absurd (ground arith)
        | inl held ↦
            rw (present, complete_locked, held)
              (lookup-assign_self s.entries key _
                ∙ (let (same_fingerprint, same_owner) =
                      is_held-fingerprint entry fingerprint owner held in
                    cc))
      ]
    ]

-- After a completion, a claim of the key with valid input before the response expires, by whomever and
-- with whatever fingerprint, acquires nothing and returns the stored response and its fingerprint.
pub claim-complete_claim :
    (s : Store) (ctx ctx' : Option ContextError)
    (key fingerprint owner fingerprint' owner' : String) (response : IdempotencyResponse)
    (ttl now ttl' now' : ℤ)
    → (complete_claim s ctx key fingerprint owner response ttl now).1 ≡ none
    → validate_input ctx' key fingerprint' owner' ttl' ≡ none
    → ltb_ℤ now' (now +ℤ ttl) ≡ true
    → (claim
        (complete_claim s ctx key fingerprint owner response ttl now).0
        ctx'
        key
        fingerprint'
        owner'
        ttl'
        now').1
      ≡ ok (record {
        acquired = false;
        state = complete;
        fingerprint = fingerprint;
        response = some response;
      })
unfolding claim claim_locked memory_claim complete_claim
claim-complete_claim s ctx ctx' key fingerprint owner fingerprint' owner' response ttl now ttl' now'
      done good fresh =
    let s' = (complete_locked s key fingerprint owner response ttl now).0 in
    let entry = completed_entry fingerprint owner response (now +ℤ ttl) in
    ground (
      arith,
      complete_locked-done s key fingerprint owner response ttl now,
      lookup-remove_expired_live s' now' key entry,
    )

claim_absent-capacity :
    (s : Store) (key fingerprint owner : String) (ttl now : ℤ)
    → (claim_absent s key fingerprint owner ttl now).1 ≡ err capacity_reached
    → (s.max_entries ≤ length s.entries) × ((evict_completed_locked s).1 ≡ false)
unfolding claim_absent admit_claim
claim_absent-capacity s key fingerprint owner ttl now refused = ground arith

claim-capacity_absent :
    (s : Store) (ctx : Option ContextError) (key fingerprint owner : String) (ttl now : ℤ)
    → (claim s ctx key fingerprint owner ttl now).1 ≡ err capacity_reached
    → (claim_absent (remove_expired_locked s now) key fingerprint owner ttl now).1
      ≡ err capacity_reached
unfolding claim claim_locked validate_input
claim-capacity_absent s (some e) key fingerprint owner ttl now refused = absurd (ground arith)
claim-capacity_absent s none key fingerprint owner ttl now refused = ground arith

-- On a valid store, a claim is refused for want of room only if, with the entries that have expired
-- by then gone, exactly as many are left as the bound allows, and all of them are pending.
pub claim-capacity :
    (s : Store) (ctx : Option ContextError) (key fingerprint owner : String) (ttl now : ℤ)
    → IsValid s
    → (claim s ctx key fingerprint owner ttl now).1 ≡ err capacity_reached
    → let left = remove_expired_locked s now in
      (length left.entries ≡ s.max_entries)
      × ((k : String) (entry : Entry) → lookup left.entries k ≡ some entry → entry.state ≡ pending)
claim-capacity s ctx key fingerprint owner ttl now v refused =
    let left = remove_expired_locked s now in
    let (v', same_max) = remove_expired-IsValid s now v in
    let (full, kept) =
      claim_absent-capacity left key fingerprint owner ttl now
        (claim-capacity_absent s ctx key fingerprint owner ttl now refused) in
    (
      omega (arith, v'.bounded),
      λ k entry found. ground (arith, v'.agree.same k, evict_completed-false left k kept),
    )
