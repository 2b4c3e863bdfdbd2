-- ===== src/Ids/UuidV7/Tests.antt =====
-- Two UUIDs while the clock goes back, and the end of a millisecond's numbers.
use goplusplus.Prelude.{ℕ, ◌≡◌, refl, true, List, [], ◌∷◌, some, arith}
use goplusplus.Ids.Snowflake.{wait}
use goplusplus.Ids.Ulid.Order.{lex_lt}
use goplusplus.Ids.UuidV7.{UuidState, advance, bytes, layout, new_uuid_v7}
use goplusplus.Ids.UuidV7.Order.{new_uuid_v7-increasing}

program : Unit {0}
unfolding wait advance bytes layout new_uuid_v7
program = tt

abbrev at : ℕ → ℕ → UuidState
at ms sequence = record { uuid_last_ms = ms; uuid_sequence = sequence }

abbrev zeros_tail : List ℕ
zeros_tail = 0 ∷ 0 ∷ 0 ∷ 0 ∷ 0 ∷ 0 ∷ 0 ∷ []

abbrev first_uuid : List ℕ
first_uuid = 0 ∷ 0 ∷ 0 ∷ 0 ∷ 3 ∷ 232 ∷ 113 ∷ 2 ∷ 191 ∷ zeros_tail

abbrev second_uuid : List ℕ
second_uuid = 0 ∷ 0 ∷ 0 ∷ 0 ∷ 3 ∷ 232 ∷ 113 ∷ 3 ∷ 128 ∷ zeros_tail

first : new_uuid_v7 (at 0 0) 1000 [] 258 255 zeros_tail ≡ some (at 1000 258, first_uuid)
unfolding program
first = refl

second : new_uuid_v7 (at 1000 258) 999 [] 7 0 zeros_tail ≡ some (at 1000 259, second_uuid)
unfolding program
second = refl

used_up : advance (at 1000 4095) 1000 (1000 ∷ 1001 ∷ []) 7 ≡ some (at 1001 7)
unfolding program
used_up = refl

new_uuid_v7-increasing_example : lex_lt first_uuid second_uuid ≡ true
new_uuid_v7-increasing_example =
    new_uuid_v7-increasing (at 0 0) (at 1000 258) (at 1000 259) 1000 999 [] [] 258 7 255 0
      zeros_tail zeros_tail first_uuid second_uuid (omega arith) first second (omega arith)
