-- ===== src/Idempotency/Store/Ownership.antt =====
-- A pending claim belongs to its owner until it expires.
use goplusplus.Prelude.{
  ◌≡◌, ◌≢◌, ap, ◌∙◌, ◌⊎◌, inl, inr, String, true, false, List, [], ◌∷◌, Option, none, some, arith,
  All, str_eq, eq_iff, Option-cases, Bool-cases,
}
use goplusplus.Prelude.Int.{ℤ, ltb_ℤ}
use goplusplus.Prelude.Map.{lookup, lookup-assign}
use goplusplus.Idempotency.Store.{
  ContextError, Entry, Store, Call, claims, completes, releases, IdempotencyResponse, pending,
  remove_expired_locked, evict_completed_locked, admit_claim, claim_absent, claim_locked, claim,
  complete_locked, complete_claim, release_locked, release, step, run, is_complete_at, is_held,
}
use goplusplus.Idempotency.Store.Removal.{
  lookup-delete_locked, lookup-remove_expired_live, evict_completed_cases,
}

-- The calls that leave the pending entry of `owner` alone: claims before it expires, and the
-- completions and releases of other keys or by other owners.
abbrev pub Leaves : String → String → ℤ → Call → Type 0
Leaves key owner expiry (claims ctx k fingerprint o ttl now) = ltb_ℤ now expiry ≡ true
Leaves key owner expiry (completes ctx k fingerprint o response ttl now) = (k ≢ key) ⊎ (o ≢ owner)
Leaves key owner expiry (releases ctx k o) = (k ≢ key) ⊎ (o ≢ owner)

is_held-owner :
    (entry : Entry) (fingerprint owner : String)
    → is_held entry fingerprint owner ≡ true
    → str_eq entry.owner owner ≡ true
is_held-owner entry fingerprint owner h = ground arith

module _ (j : String) (entry : Entry) (is_pending : entry.state ≡ pending) where
  evict-pending :
      (s : Store)
      → lookup s.entries j ≡ some entry
      → lookup (evict_completed_locked s).0.entries j ≡ some entry
  evict-pending s held = elim (evict_completed_cases s) [
    | inl kept ↦ rw kept held
    | inr (k, done, evicted) ↦ rw evicted (elim (Bool-cases (str_eq k j)) [
      | inl same ↦
          absurd (ground (arith, ap (λ (x : String). is_complete_at s x) ((eq_iff k j).0 same)))
      | inr other ↦ ground (arith, lookup-delete_locked s k j)
    ])
  ]

  other_key :
      (s : Store) (k : String)
      → lookup s.entries k ≡ none
      → lookup s.entries j ≡ some entry
      → str_eq k j ≡ false
  other_key s k absent held = elim (Bool-cases (str_eq k j)) [
    | inl same ↦
        absurd (ground (arith, ap (λ (x : String). lookup s.entries x) ((eq_iff k j).0 same)))
    | inr other ↦ other
  ]

  -- A key whose entry has another owner is another key.
  apart :
      (s : Store) (k : String) (found : Entry) (owner : String)
      → (k ≢ j) ⊎ (owner ≢ entry.owner)
      → lookup s.entries j ≡ some entry
      → lookup s.entries k ≡ some found
      → str_eq found.owner owner ≡ true
      → str_eq k j ≡ false
  apart s k found owner other held present mine = elim (Bool-cases (str_eq k j)) [
    | inr different ↦ different
    | inl same ↦ absurd (
        ground (
          arith,
          ap (λ (x : String). lookup s.entries x) ((eq_iff k j).0 same),
          eq_iff k j,
          eq_iff found.owner owner,
        ))
  ]

  admit-pending :
      (s : Store) (k fingerprint owner : String) (ttl now : ℤ)
      → str_eq k j ≡ false
      → lookup s.entries j ≡ some entry
      → lookup (admit_claim s k fingerprint owner ttl now).0.entries j ≡ some entry
  unfolding admit_claim
  admit-pending s k fingerprint owner ttl now other held =
      lookup-assign s.entries k _ j ∙ rw other held

  claim_absent-pending :
      (s : Store) (k fingerprint owner : String) (ttl now : ℤ)
      → str_eq k j ≡ false
      → lookup s.entries j ≡ some entry
      → lookup (claim_absent s k fingerprint owner ttl now).0.entries j ≡ some entry
  unfolding claim_absent
  claim_absent-pending s k fingerprint owner ttl now other held =
      let s' = (evict_completed_locked s).0 in
      let held' = evict-pending s held in
      ground (
        arith,
        admit-pending s' k fingerprint owner ttl now other held',
        admit-pending s k fingerprint owner ttl now other held,
      )

  claim_locked-pending :
      (s : Store) (k fingerprint owner : String) (ttl now : ℤ)
      → ltb_ℤ now entry.expires_at ≡ true
      → lookup s.entries j ≡ some entry
      → lookup (claim_locked s k fingerprint owner ttl now).0.entries j ≡ some entry
  unfolding claim_locked
  claim_locked-pending s k fingerprint owner ttl now fresh held =
      let s' = remove_expired_locked s now in
      let held' = lookup-remove_expired_live s now j entry held fresh in
      elim (Option-cases (lookup s'.entries k)) [
        | inl absent ↦
            rw (absent, claim_locked)
              (claim_absent-pending s' k fingerprint owner ttl now (other_key s' k absent held')
                held')
        | inr (found, present) ↦ rw (present, claim_locked) held'
      ]

  complete_locked-pending :
      (s : Store) (k fingerprint owner : String) (response : IdempotencyResponse) (ttl now : ℤ)
      → (k ≢ j) ⊎ (owner ≢ entry.owner)
      → lookup s.entries j ≡ some entry
      → lookup (complete_locked s k fingerprint owner response ttl now).0.entries j ≡ some entry
  unfolding complete_locked
  complete_locked-pending s k fingerprint owner response ttl now other held =
      elim (Option-cases (lookup s.entries k)) [
        | inl absent ↦ rw (absent, complete_locked) held
        | inr (found, present) ↦ elim (Bool-cases (is_held found fingerprint owner)) [
          | inr lost ↦ rw (present, complete_locked, lost) held
          | inl mine ↦
              rw (present, complete_locked, mine)
                (lookup-assign s.entries k _ j
                  ∙ rw
                      (apart s k found owner other held present
                        (is_held-owner found fingerprint owner mine))
                      held)
        ]
      ]

  release-pending :
      (s : Store) (ctx : Option ContextError) (k owner : String)
      → (k ≢ j) ⊎ (owner ≢ entry.owner)
      → lookup s.entries j ≡ some entry
      → lookup (release s ctx k owner).0.entries j ≡ some entry
  unfolding release release_locked
  release-pending s (some e) k owner other held = held
  release-pending s none k owner other held = elim (Option-cases (lookup s.entries k)) [
    | inl absent ↦ ground arith
    | inr (found, present) ↦ elim (Bool-cases (str_eq found.owner owner)) [
      | inr lost ↦ ground arith
      | inl mine ↦
          ground (arith, lookup-delete_locked s k j, apart s k found owner other held present mine)
    ]
  ]

  step-pending :
      (s : Store) (c : Call)
      → Leaves j entry.owner entry.expires_at c
      → lookup s.entries j ≡ some entry
      → lookup (step s c).entries j ≡ some entry
  unfolding step claim complete_claim
  step-pending s (claims ctx k fingerprint owner ttl now) other held =
      ground (arith, claim_locked-pending s k fingerprint owner ttl now other held)
  step-pending s (completes ctx k fingerprint owner response ttl now) other held =
      ground (arith, complete_locked-pending s k fingerprint owner response ttl now other held)
  step-pending s (releases ctx k owner) other held = release-pending s ctx k owner other held

  pub run-pending :
      (s : Store) (calls : List Call)
      → All (Leaves j entry.owner entry.expires_at) calls
      → lookup s.entries j ≡ some entry
      → lookup (run s calls).entries j ≡ some entry
  unfolding run
  run-pending s [] others held = held
  run-pending s (c ∷ calls) others held =
      run-pending (step s c) calls others.1 (step-pending s c others.0 held)
