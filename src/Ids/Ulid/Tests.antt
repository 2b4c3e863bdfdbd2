-- ===== src/Ids/Ulid/Tests.antt =====
-- Three ULIDs, two of them in one millisecond.
use goplusplus.Prelude.{◌≡◌, refl, ◌+◌, ◌*◌, ◌^◌, ◌<◌, true, [], ◌∷◌, ◌++◌, arith}
use goplusplus.Ids.Ulid.{initial, symbol, encode, advance, new_ulid}
use goplusplus.Ids.Ulid.Order.{lex_lt, new_ulid-increasing}

program : Unit {0}
unfolding symbol encode advance new_ulid
program = tt

-- 1000 is Z8 in base 32, and 7 * 2 ^ 16 leaves an entropy of 7.
first_ulid :
    (new_ulid initial 1000 (7 * 2 ^ 16)).1 ≡ encode 8 0 ++ 90 ∷ 56 ∷ [] ++ encode 15 0 ++ 55 ∷ []
unfolding program
first_ulid = refl

room : (advance initial 1000 (7 * 2 ^ 16)).ulid_entropy + 1 < 2 ^ 64
unfolding program
room = omega arith

new_ulid-increasing_example :
    lex_lt
      (new_ulid initial 1000 (7 * 2 ^ 16)).1
      (new_ulid (new_ulid initial 1000 (7 * 2 ^ 16)).0 1000 0).1
    ≡ true
new_ulid-increasing_example =
    new_ulid-increasing initial 1000 1000 (7 * 2 ^ 16) 0 (omega arith) (omega arith) room
