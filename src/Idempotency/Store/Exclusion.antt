-- ===== src/Idempotency/Store/Exclusion.antt =====
-- At most one owner at a time: an acquired claim excludes all others until it expires.
use goplusplus.Prelude.{◌≡◌, refl, String, true, false, List, Option, none, some, arith, All}
use goplusplus.Prelude.Int.{ℤ, ◌+ℤ◌, ltb_ℤ}
use goplusplus.Prelude.Map.{lookup, lookup-assign_self}
use goplusplus.Idempotency.Store.{
  ContextError, Entry, Store, Call, IdempotencyClaim, pending, ok, validate_input, memory_claim,
  remove_expired_locked, evict_completed_locked, admit_claim, claim_absent, claim_locked, claim,
  run,
}
use goplusplus.Idempotency.Store.Removal.{lookup-remove_expired_live}
use goplusplus.Idempotency.Store.Ownership.{Leaves, run-pending}

-- The entry that an acquired claim leaves.
abbrev new_entry : String → String → ℤ → Entry
new_entry fingerprint owner expiry = record {
  fingerprint = fingerprint;
  owner = owner;
  state = pending;
  response = none;
  expires_at = expiry;
}

claim_absent-acquired :
    (s : Store) (key fingerprint owner : String) (ttl now : ℤ) (c : IdempotencyClaim)
    → (claim_absent s key fingerprint owner ttl now).1 ≡ ok c
    → lookup (claim_absent s key fingerprint owner ttl now).0.entries key
      ≡ some (new_entry fingerprint owner (now +ℤ ttl))
unfolding claim_absent admit_claim
claim_absent-acquired s key fingerprint owner ttl now c e =
    let new = new_entry fingerprint owner (now +ℤ ttl) in
    ground (
      arith,
      lookup-assign_self s.entries key new,
      lookup-assign_self (evict_completed_locked s).0.entries key new,
    )

pub claim-acquired :
    (s : Store) (ctx : Option ContextError) (key fingerprint owner : String) (ttl now : ℤ)
    (c : IdempotencyClaim)
    → (claim s ctx key fingerprint owner ttl now).1 ≡ ok c
    → c.acquired ≡ true
    → lookup (claim s ctx key fingerprint owner ttl now).0.entries key
      ≡ some (new_entry fingerprint owner (now +ℤ ttl))
unfolding claim claim_locked memory_claim
claim-acquired s ctx key fingerprint owner ttl now c e acquired =
    ground
      (arith, claim_absent-acquired (remove_expired_locked s now) key fingerprint owner ttl now c)

-- A claim of a key with a live pending entry reads that entry.
claim-pending :
    (s : Store) (ctx : Option ContextError) (key fingerprint owner : String) (ttl now : ℤ)
    (entry : Entry)
    → validate_input ctx key fingerprint owner ttl ≡ none
    → lookup s.entries key ≡ some entry
    → ltb_ℤ now entry.expires_at ≡ true
    → (claim s ctx key fingerprint owner ttl now).1 ≡ ok (memory_claim entry)
unfolding claim claim_locked
claim-pending s ctx key fingerprint owner ttl now entry good held fresh =
    ground (arith, lookup-remove_expired_live s now key entry held fresh)

-- Once a claim of a key is acquired, then whatever calls follow, if the claims among them come before
-- it expires and the completions and releases among them are of other keys or by other owners:
-- a further claim of the key with valid input before the expiry, by whomever, does not acquire it,
-- and is told that a request with the first claim's fingerprint is pending.
pub claim-exclusive :
    (s : Store) (ctx ctx' : Option ContextError)
    (key fingerprint owner fingerprint' owner' : String) (ttl now ttl' now' : ℤ)
    (c : IdempotencyClaim) (calls : List Call)
    → (claim s ctx key fingerprint owner ttl now).1 ≡ ok c
    → c.acquired ≡ true
    → All (Leaves key owner (now +ℤ ttl)) calls
    → validate_input ctx' key fingerprint' owner' ttl' ≡ none
    → ltb_ℤ now' (now +ℤ ttl) ≡ true
    → (claim
        (run (claim s ctx key fingerprint owner ttl now).0 calls)
        ctx'
        key
        fingerprint'
        owner'
        ttl'
        now').1
      ≡ ok
          (record { acquired = false; state = pending; fingerprint = fingerprint; response = none })
unfolding memory_claim
claim-exclusive s ctx ctx' key fingerprint owner fingerprint' owner' ttl now ttl' now' c calls e
      acquired others good fresh =
    let s₁ = (claim s ctx key fingerprint owner ttl now).0 in
    let entry = new_entry fingerprint owner (now +ℤ ttl) in
    claim-pending (run s₁ calls) ctx' key fingerprint' owner' ttl' now' entry good
      (run-pending key entry refl s₁ calls others
        (claim-acquired s ctx key fingerprint owner ttl now c e acquired))
      fresh
