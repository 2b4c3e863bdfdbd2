-- ===== src/Ids/Snowflake.antt =====
-- id/id.go, SnowflakeNode. The clock's readings in milliseconds are arguments: the first one, and
-- those that the wait for the next millisecond takes. The three fields of an identifier share no
-- bit, so `|` adds them up. The shift wraps around as an int64 does, which happens from 2 ^ 41
-- milliseconds after the epoch on, in the year 2093.
pub mod Order
mod Tests
use goplusplus.Prelude.{
  ℕ, zero, suc, ◌+◌, ◌-◌, ◌*◌, ◌%◌, ◌^◌, List, [], ◌∷◌, Option, none, some, if◌then◌else◌, ◌==◌,
  leb,
}
use goplusplus.Prelude.Int.{ℤ, pos, negsuc, ◌+ℤ◌, ◌-ℤ◌, to_int64}

abbrev pub snowflake_epoch : ℕ
snowflake_epoch = 1704067200000

-- 1 << 10, one more than snowflakeMaxNode
abbrev pub nodes : ℕ
nodes = 2 ^ 10

-- 1 << 12, one more than snowflakeMaxSequence
abbrev pub sequences : ℕ
sequences = 2 ^ 12

pub record SnowflakeNode : Type 0 where
  pub node_id : ℕ
  pub last_ms : ℕ
  pub sequence : ℕ

unfoldable pub new_snowflake_node : ℤ → Option SnowflakeNode
new_snowflake_node (negsuc n) = none
new_snowflake_node (pos node_id) =
    if leb nodes node_id
    then none
    else some (record { node_id = node_id; last_ms = 0; sequence = 0 })

-- x << 22, on an int64
unfoldable pub shift_22 : ℤ → ℤ
shift_22 (pos n) = to_int64 (pos (n * 2 ^ 22))
shift_22 (negsuc n) = to_int64 (negsuc (suc n * 2 ^ 22 - 1))

unfoldable pub compose : ℕ → ℕ → ℕ → ℤ
compose now_ms node_id sequence =
    shift_22 (pos now_ms -ℤ pos snowflake_epoch) +ℤ pos (node_id * sequences + sequence)

-- for nowMs <= n.lastMs { nowMs = time.Now().UnixMilli() }, over the readings that follow; none if
-- they are used up before the clock moves on.
unfoldable pub wait : ℕ → ℕ → List ℕ → Option ℕ
wait now_ms last_ms [] = if leb now_ms last_ms then none else some now_ms
wait now_ms last_ms (reading ∷ readings) =
    let rest = wait reading last_ms readings in if leb now_ms last_ms then rest else some now_ms

-- The end of NextID.
unfoldable pub finish : SnowflakeNode → ℕ → ℕ → SnowflakeNode × ℤ
finish n now_ms sequence =
    (record n { last_ms = now_ms; sequence = sequence }, compose now_ms n.node_id sequence)

unfoldable pub next_id : SnowflakeNode → ℕ → List ℕ → Option (SnowflakeNode × ℤ)
next_id n now_ms readings =
    let sequence = (n.sequence + 1) % sequences in
    let waited = wait now_ms n.last_ms readings in
    if now_ms == n.last_ms
    then (if sequence == 0
        then elim waited [ none ↦ none | some later_ms ↦ some (finish n later_ms 0) ]
        else some (finish n now_ms sequence))
    else some (finish n now_ms 0)
