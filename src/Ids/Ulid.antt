-- ===== src/Ids/Ulid.antt =====
-- id/id.go, NewULID. Characters are their ASCII codes. The clock's reading in milliseconds and the
-- 64 random bits are arguments; `& 0x1F` and shifts are remainders and quotients.
pub mod Order
mod Tests
use goplusplus.Prelude.{
  ℕ, zero, suc, ◌+◌, ◌/◌, ◌%◌, ◌^◌, List, [], ◌∷◌, ◌++◌, if◌then◌else◌, ◌==◌, get_or,
}

-- "0123456789ABCDEFGHJKMNPQRSTVWXYZ"
abbrev pub crockford_alphabet : List ℕ
crockford_alphabet =
    48 ∷ 49 ∷ 50 ∷ 51 ∷ 52 ∷ 53 ∷ 54 ∷ 55 ∷ 56 ∷ 57 ∷ 65 ∷ 66 ∷ 67 ∷ 68 ∷ 69 ∷ 70 ∷ 71 ∷ 72 ∷ 74
    ∷ 75 ∷ 77 ∷ 78 ∷ 80 ∷ 81 ∷ 82 ∷ 83 ∷ 84 ∷ 86 ∷ 87 ∷ 88 ∷ 89 ∷ 90 ∷ []

unfoldable pub symbol : ℕ → ℕ
symbol digit = get_or crockford_alphabet digit 0

-- The package's variables.
pub record UlidState : Type 0 where
  pub ulid_last_ms : ℕ
  pub ulid_entropy : ℕ

abbrev pub initial : UlidState
initial = record { ulid_last_ms = 0; ulid_entropy = 0 }

-- Both loops: the last of n characters is written first.
unfoldable pub encode : ℕ → ℕ → List ℕ
encode zero value = []
encode (suc n) value = encode n (value / 32) ++ symbol (value % 32) ∷ []

-- The entropy is a uint64, and 48 bits of it when it is drawn.
unfoldable pub advance : UlidState → ℕ → ℕ → UlidState
advance u now_ms random =
    if now_ms == u.ulid_last_ms
    then record u { ulid_entropy = (u.ulid_entropy + 1) % 2 ^ 64 }
    else record { ulid_last_ms = now_ms; ulid_entropy = random / 2 ^ 16 }

unfoldable pub new_ulid : UlidState → ℕ → ℕ → UlidState × List ℕ
new_ulid u now_ms random =
    let u' = advance u now_ms random in (u', encode 10 now_ms ++ encode 16 u'.ulid_entropy)
