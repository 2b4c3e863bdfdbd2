-- ===== src/Ids/Snowflake/Tests.antt =====
-- Identifiers of two nodes, a wait at the end of a millisecond's numbers, and a clock that goes back.
use goplusplus.Prelude.{ℕ, ◌≡◌, ◌≢◌, refl, [], ◌∷◌, none, some, arith}
use goplusplus.Prelude.Int.{ℤ, pos, negsuc, ◌+ℤ◌, ◌-ℤ◌, ◌<ℤ◌, to_int64}
use goplusplus.Ids.Snowflake.{
  SnowflakeNode, new_snowflake_node, shift_22, compose, wait, finish, next_id,
}
use goplusplus.Ids.Snowflake.Order.{IsValid, next_id-increasing, next_id-distinct, next_id-returns}

program : Unit {0}
unfolding ◌+ℤ◌ ◌-ℤ◌ to_int64 new_snowflake_node shift_22 compose wait finish next_id
program = tt

abbrev start : SnowflakeNode
start = record { node_id = 3; last_ms = 0; sequence = 0 }

abbrev other : SnowflakeNode
other = record { node_id = 4; last_ms = 0; sequence = 0 }

abbrev t5 : ℕ
t5 = 1704067200005

abbrev at : ℕ → ℕ → SnowflakeNode
at ms sequence = record { node_id = 3; last_ms = ms; sequence = sequence }

refused : (new_snowflake_node (pos 1024) ≡ none) × (new_snowflake_node (negsuc 0) ≡ none)
unfolding program
refused = (refl, refl)

first : next_id start t5 [] ≡ some (at t5 0, pos 20983808)
unfolding program
first = refl

second : next_id (at t5 0) t5 [] ≡ some (at t5 1, pos 20983809)
unfolding program
second = refl

-- 4096 numbers are used up: the third reading is in the next millisecond.
waits :
    (next_id (at t5 4095) t5 (t5 ∷ 1704067200006 ∷ []) ≡ some (at 1704067200006 0, pos 25178112))
    × (next_id (at t5 4095) t5 (t5 ∷ []) ≡ none)
unfolding program
waits = (refl, refl)

-- A clock that goes back by a millisecond and comes again gives the first identifier once more.
repeats : next_id (at 1704067200004 0) t5 [] ≡ some (at t5 0, pos 20983808)
unfolding program
repeats = refl

gone_back : next_id (at t5 0) 1704067200004 [] ≡ some (at 1704067200004 0, pos 16789504)
unfolding program
gone_back = refl

first_other : next_id other t5 [] ≡ some (record other { last_ms = t5 }, pos 20987904)
unfolding program
first_other = refl

start-IsValid : IsValid start
start-IsValid = record { node = omega arith; number = omega arith }

other-IsValid : IsValid other
other-IsValid = record { node = omega arith; number = omega arith }

next_id-increasing_example : pos 20983808 <ℤ pos 20983809
next_id-increasing_example =
    next_id-increasing start t5 t5 [] [] (at t5 0) (at t5 1) (pos 20983808) (pos 20983809)
      start-IsValid (omega arith) first (omega arith) second (omega arith)

two_identifiers : pos 20983808 ≢ pos 20987904
two_identifiers =
    next_id-distinct start other t5 t5 [] [] (at t5 0) (record other { last_ms = t5 })
      (pos 20983808) (pos 20987904) start-IsValid other-IsValid (omega arith) (omega arith)
      (omega arith) first first_other

next_id-returns_example :
    (r : SnowflakeNode × ℤ) × (next_id (at t5 4095) t5 (t5 ∷ 1704067200006 ∷ []) ≡ some r)
next_id-returns_example = next_id-returns (at t5 4095) t5 (t5 ∷ []) [] 1704067200006 (omega arith)
