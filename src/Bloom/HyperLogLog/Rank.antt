-- ===== src/Bloom/HyperLogLog/Rank.antt =====
-- The loop that counts trailing zeros.
use native.Mathlib.Nat.{pow-suc}
use goplusplus.Prelude.{
  ◌&&◌, Bool-cases, ℕ, zero, suc, ◌+◌, ◌*◌, ◌/◌, ◌%◌, ◌^◌, ◌≤◌, ◌≡◌, ◌⊎◌, inl, inr, ◌==◌, ltb,
  arith,
}
use goplusplus.Bloom.HyperLogLog.{rank_from, rank}

-- `r` is the count at which the loop stops: it has halved the value r - count times with no
-- remainder, and what is left is odd unless the count has reached 64.
abbrev pub IsRank : ℕ → ℕ → ℕ → Type 0
IsRank count val r =
    (halvings : ℕ) × (rest : ℕ) × (r ≡ count + halvings)
    × (r ≤ 64)
    × (val ≡ rest * 2 ^ halvings)
    × ((rest % 2 ≡ 1) ⊎ (r ≡ 64))

halve : (count val r : ℕ) → val % 2 ≡ 0 → IsRank (count + 1) (val / 2) r → IsRank count val r
halve count val r even (halvings, rest, at, most, shifted, stop) =
    (suc halvings, rest, omega arith, most, grind (arith, pow-suc 2 halvings), stop)

rank_from-IsRank :
    (rounds count val : ℕ) → count + rounds ≡ 64 → IsRank count val (rank_from rounds count val)
unfolding rank_from
rank_from-IsRank zero count val e = (0, val, omega arith, omega arith, omega arith, omega arith)
rank_from-IsRank (suc rounds) count val e = elim (Bool-cases ((val % 2 == 0) && ltb count 64)) [
  | inl more ↦ rw more (
      halve count val _ (ground arith)
        (rank_from-IsRank rounds (count + 1) (val / 2) (omega arith)))
  | inr done ↦ rw done (0, val, omega arith, omega arith, omega arith, ground arith)
]

-- The bound on the rounds is enough: the rank of a value is one more than the number of its
-- trailing zero bits, and at most 64.
pub rank-IsRank : (val : ℕ) → IsRank 1 val (rank val)
unfolding rank
rank-IsRank val = rank_from-IsRank 63 1 val (omega arith)
