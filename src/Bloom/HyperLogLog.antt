-- ===== src/Bloom/HyperLogLog.antt =====
-- bloom/bloom.go, HyperLogLog: its registers. An element is given by its 64-bit sum. The estimate,
-- which is a floating-point sum over the registers, is not modelled.
pub mod Rank
pub mod Registers
mod Tests
use goplusplus.Prelude.{
  ℕ, zero, suc, ◌+◌, ◌/◌, ◌%◌, ◌^◌, Bool, true, false, ◌&&◌, List, [], ◌∷◌, if◌then◌else◌, ◌==◌,
  ltb, set, get_or, replicate,
}

pub record HyperLogLog : Type 0 where
  pub registers : List ℕ
  pub m : ℕ

unfoldable pub new_hyper_log_log : HyperLogLog
new_hyper_log_log = record { registers = replicate 1024 0; m = 1024 }

-- for val&1 == 0 && zeros < 64 { zeros++; val >>= 1 }, with a bound on the rounds. The loop starts
-- with zeros = 1, so 63 rounds are enough.
unfoldable pub rank_from : ℕ → ℕ → ℕ → ℕ
rank_from zero count val = count
rank_from (suc rounds) count val =
    let rest = rank_from rounds (count + 1) (val / 2) in
    if (val % 2 == 0) && ltb count 64 then rest else count

unfoldable pub rank : ℕ → ℕ
rank val = rank_from 63 1 val

unfoldable pub add : HyperLogLog → ℕ → HyperLogLog
add hll sum =
    let index = sum % hll.m in
    let count = rank (sum / 2 ^ 10) in
    if ltb (get_or hll.registers index 0) count
    then record hll { registers = set hll.registers index count }
    else hll

unfoldable pub add_all : HyperLogLog → List ℕ → HyperLogLog
add_all hll [] = hll
add_all hll (sum ∷ sums) = add_all (add hll sum) sums
