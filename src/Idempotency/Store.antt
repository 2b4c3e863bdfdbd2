-- ===== src/Idempotency/Store.antt =====
-- middleware/idempotency_store.go. Each method is one critical section; the clock's reading and the
-- context's error, if it has one, are arguments. Instants and lifetimes are signed nanoseconds.
-- A clone is the value itself, since the model's values are not shared.
pub mod Removal
pub mod Invariant
pub mod Ownership
pub mod Exclusion
pub mod Replay
mod Tests
use goplusplus.Prelude.{
  ℕ, ◌+◌, String, Bool, true, false, ◌&&◌, ◌||◌, List, [], ◌∷◌, ◌++◌, Option, none, some, not,
  if◌then◌else◌, leb, length, str_eq,
}
use goplusplus.Prelude.Int.{ℤ, pos, ◌+ℤ◌, ltb_ℤ, leb_ℤ, positive_or}
use goplusplus.Prelude.Map.{Map, lookup, assign, delete}
use goplusplus.Prelude.Ordered.{remove}

pub data ContextError : Type 0 where
  canceled deadline_exceeded : ContextError

pub data StoreError : Type 0 where
  context_done : ContextError → StoreError
  input_required ttl_not_positive capacity_reached ownership_lost key_and_owner_required :
      StoreError

pub data IdempotencyState : Type 0 where
  pending complete : IdempotencyState

pub record IdempotencyResponse : Type 0 where
  pub status : ℕ
  pub header : List (String × List String)
  pub body : List ℕ

pub record IdempotencyClaim : Type 0 where
  pub acquired : Bool
  pub state : IdempotencyState
  pub fingerprint : String
  pub response : Option IdempotencyResponse

pub record Entry : Type 0 where
  pub fingerprint : String
  pub owner : String
  pub state : IdempotencyState
  pub response : Option IdempotencyResponse
  pub expires_at : ℤ

pub record Store : Type 0 where
  pub entries : Map Entry
  pub order : List String
  pub max_entries : ℕ

pub data Result {ℓ} (A : Type ℓ) : Type ℓ where
  ok : A → Result A
  err : StoreError → Result A

unfoldable pub new_store : ℤ → Store
new_store max_entries = record {
  entries = [];
  order = [];
  max_entries = positive_or max_entries 10000;
}

abbrev pub is_pending : IdempotencyState → Bool
is_pending pending = true
is_pending complete = false

-- validateIdempotencyStoreInput
unfoldable pub validate_input :
    Option ContextError → String → String → String → ℤ → Option StoreError
validate_input (some e) key fingerprint owner ttl = some (context_done e)
validate_input none key fingerprint owner ttl =
    if str_eq key "" || str_eq fingerprint "" || str_eq owner ""
    then some input_required
    else if leb_ℤ ttl (pos 0)
    then some ttl_not_positive
    else none

-- memoryClaim
unfoldable pub memory_claim : Entry → IdempotencyClaim
memory_claim entry = record {
  acquired = false;
  state = entry.state;
  fingerprint = entry.fingerprint;
  response = entry.response;
}

-- deleteLocked
unfoldable pub delete_locked : Store → String → Store
delete_locked s key = elim (lookup s.entries key) [
  | none ↦ s
  | some entry ↦ record s { order = remove s.order key; entries = delete s.entries key }
]

-- !now.Before(entry.expiresAt)
abbrev pub is_expired : ℤ → Entry → Bool
is_expired now entry = not (ltb_ℤ now entry.expires_at)

unfoldable pub remove_if_expired : Store → ℤ → String → Store
remove_if_expired s now key = elim (lookup s.entries key) [
  | none ↦ s
  | some entry ↦ if is_expired now entry then delete_locked s key else s
]

-- The loop of removeExpiredLocked over the keys that the list holds; each element's successor is
-- read before the element is removed. An order key without an entry, which the code would
-- dereference, does not arise: see `IsValid`.
unfoldable pub remove_expired_from : List String → Store → ℤ → Store
remove_expired_from [] s now = s
remove_expired_from (key ∷ keys) s now = remove_expired_from keys (remove_if_expired s now key) now

unfoldable pub remove_expired_locked : Store → ℤ → Store
remove_expired_locked s now = remove_expired_from s.order s now

abbrev pub is_complete_at : Store → String → Bool
is_complete_at s key = elim (lookup s.entries key) [
  | none ↦ false
  | some entry ↦ not (is_pending entry.state)
]

-- The loop of evictCompletedLocked: the oldest completed entry goes, and true is returned.
unfoldable pub evict_completed_from : List String → Store → Store × Bool
evict_completed_from [] s = (s, false)
evict_completed_from (key ∷ keys) s =
    let rest = evict_completed_from keys s in
    if is_complete_at s key then (delete_locked s key, true) else rest

unfoldable pub evict_completed_locked : Store → Store × Bool
evict_completed_locked s = evict_completed_from s.order s

-- The end of Claim: the new pending entry.
unfoldable pub admit_claim :
    Store → String → String → String → ℤ → ℤ → Store × Result IdempotencyClaim
admit_claim s key fingerprint owner ttl now =
    let entry : Entry = record {
      fingerprint = fingerprint;
      owner = owner;
      state = pending;
      response = none;
      expires_at = now +ℤ ttl;
    } in
    (
      record s { order = s.order ++ key ∷ []; entries = assign s.entries key entry },
      ok (record { acquired = true; state = pending; fingerprint = fingerprint; response = none }),
    )

-- Claim after the expired entries are gone, for a key with no entry.
unfoldable pub claim_absent :
    Store → String → String → String → ℤ → ℤ → Store × Result IdempotencyClaim
claim_absent s key fingerprint owner ttl now =
    let (s', evicted) = evict_completed_locked s in
    if leb s.max_entries (length s.entries)
    then (if evicted
        then admit_claim s' key fingerprint owner ttl now
        else (s', err capacity_reached))
    else admit_claim s key fingerprint owner ttl now

unfoldable pub claim_locked :
    Store → String → String → String → ℤ → ℤ → Store × Result IdempotencyClaim
claim_locked s key fingerprint owner ttl now =
    let s' = remove_expired_locked s now in
    elim (lookup s'.entries key) [
      | some entry ↦ (s', ok (memory_claim entry))
      | none ↦ claim_absent s' key fingerprint owner ttl now
    ]

unfoldable pub claim :
    Store → Option ContextError → String → String → String → ℤ → ℤ → Store × Result IdempotencyClaim
claim s ctx key fingerprint owner ttl now = elim (validate_input ctx key fingerprint owner ttl) [
  | some e ↦ (s, err e)
  | none ↦ claim_locked s key fingerprint owner ttl now
]

-- Does the entry belong to this pending claim?
abbrev pub is_held : Entry → String → String → Bool
is_held entry fingerprint owner =
    is_pending entry.state && str_eq entry.owner owner && str_eq entry.fingerprint fingerprint

unfoldable pub complete_locked :
    Store → String → String → String → IdempotencyResponse → ℤ → ℤ → Store × Option StoreError
complete_locked s key fingerprint owner response ttl now = elim (lookup s.entries key) [
  | none ↦ (s, some ownership_lost)
  | some entry ↦
      if is_held entry fingerprint owner
      then (
        record s {
          entries = assign s.entries key (record entry {
            state = complete;
            response = some response;
            expires_at = now +ℤ ttl;
          });
        },
        none,
      )
      else (s, some ownership_lost)
]

unfoldable pub complete_claim :
    Store
    → Option ContextError
    → String
    → String
    → String
    → IdempotencyResponse
    → ℤ
    → ℤ
    → Store × Option StoreError
complete_claim s ctx key fingerprint owner response ttl now =
    elim (validate_input ctx key fingerprint owner ttl) [
      | some e ↦ (s, some e)
      | none ↦ complete_locked s key fingerprint owner response ttl now
    ]

unfoldable pub release_locked : Store → String → String → Store × Option StoreError
release_locked s key owner = elim (lookup s.entries key) [
  | none ↦ (s, none)
  | some entry ↦
      if is_pending entry.state && str_eq entry.owner owner
      then (delete_locked s key, none)
      else (s, some ownership_lost)
]

unfoldable pub release : Store → Option ContextError → String → String → Store × Option StoreError
release s (some e) key owner = (s, some (context_done e))
release s none key owner =
    if str_eq key "" || str_eq owner ""
    then (s, some key_and_owner_required)
    else release_locked s key owner

-- A call of one of the three methods, with all that it reads.
pub data Call : Type 0 where
  claims : Option ContextError → String → String → String → ℤ → ℤ → Call
  completes : Option ContextError → String → String → String → IdempotencyResponse → ℤ → ℤ → Call
  releases : Option ContextError → String → String → Call

unfoldable pub step : Store → Call → Store
step s (claims ctx key fingerprint owner ttl now) = (claim s ctx key fingerprint owner ttl now).0
step s (completes ctx key fingerprint owner response ttl now) =
    (complete_claim s ctx key fingerprint owner response ttl now).0
step s (releases ctx key owner) = (release s ctx key owner).0

unfoldable pub run : Store → List Call → Store
run s [] = s
run s (c ∷ cs) = run (step s c) cs
