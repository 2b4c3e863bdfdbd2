-- ===== src/Ids/UuidV7.antt =====
-- id/id.go, NewUUIDv7, up to the 16 bytes that it prints. The clock's readings and the random bytes
-- are arguments: `random` is the number in bytes 6 and 7, `eighth` is byte 8 and `tail` the rest.
pub mod Order
mod Tests
use goplusplus.Prelude.{
  ℕ, zero, suc, ◌+◌, ◌/◌, ◌%◌, ◌^◌, List, [], ◌∷◌, ◌++◌, Option, none, some, if◌then◌else◌, leb,
  ltb,
}
use goplusplus.Ids.Snowflake.{wait}

-- The package's variables.
pub record UuidState : Type 0 where
  pub uuid_last_ms : ℕ
  pub uuid_sequence : ℕ

-- The new millisecond and sequence number. The wait for the next millisecond is the loop that
-- SnowflakeNode has as well; none if the readings are used up before the clock moves on.
unfoldable pub advance : UuidState → ℕ → List ℕ → ℕ → Option UuidState
advance u now_ms readings random =
    let sequence = (u.uuid_sequence + 1) % 2 ^ 16 in
    let waited = wait u.uuid_last_ms u.uuid_last_ms readings in
    if leb now_ms u.uuid_last_ms
    then (if ltb 0x0fff sequence
        then elim waited [
          | none ↦ none
          | some later_ms ↦
              some (record { uuid_last_ms = later_ms; uuid_sequence = random % 2 ^ 12 })
        ]
        else some (record u { uuid_sequence = sequence }))
    else some (record { uuid_last_ms = now_ms; uuid_sequence = random % 2 ^ 12 })

-- byte(v >> 8*(n-1)), ..., byte(v >> 8), byte(v)
unfoldable pub bytes : ℕ → ℕ → List ℕ
bytes zero value = []
bytes (suc n) value = bytes n (value / 256) ++ value % 256 ∷ []

-- The version bits 0x70 and the variant bits 0x80 are none of the others'.
unfoldable pub layout : UuidState → ℕ → List ℕ → List ℕ
layout u eighth tail =
    bytes 6 u.uuid_last_ms
    ++ (u.uuid_sequence / 256 + 0x70) ∷ (u.uuid_sequence % 256) ∷ (eighth % 64 + 0x80) ∷ tail

unfoldable pub new_uuid_v7 : UuidState → ℕ → List ℕ → ℕ → ℕ → List ℕ → Option (UuidState × List ℕ)
new_uuid_v7 u now_ms readings random eighth tail = elim (advance u now_ms readings random) [
  | none ↦ none
  | some u' ↦ some (u', layout u' eighth tail)
]
