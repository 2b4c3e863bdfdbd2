-- ===== src/Bloom/HyperLogLog/Tests.antt =====
-- The counter at a few sums.
use mathlib.Core.List.Perm
use goplusplus.Prelude.{◌≡◌, refl, ◌++◌, [], ◌∷◌, get_or}
use goplusplus.Bloom.HyperLogLog.{new_hyper_log_log, rank_from, rank, add, add_all}
use goplusplus.Bloom.HyperLogLog.Rank.{IsRank, rank-IsRank}
use goplusplus.Bloom.HyperLogLog.Registers.{
  IsValid, add-add_all_repeated, add_all-Perm, add_all-IsValid,
}

program : Unit {0}
unfolding new_hyper_log_log rank_from rank add add_all
program = tt

ranks : (rank 1 ≡ 1) × (rank 40 ≡ 4) × (rank 0 ≡ 64)
unfolding program
ranks = (refl, refl, refl)

register_seven : get_or (add_all new_hyper_log_log (7 ∷ 8199 ∷ [])).registers 7 0 ≡ 64
unfolding program
register_seven = refl

rank_of_sum : IsRank 1 40 (rank 40)
rank_of_sum = rank-IsRank 40

repeated_sum :
    add (add_all new_hyper_log_log ([] ++ 7 ∷ 8199 ∷ [])) 7
    ≡ add_all new_hyper_log_log ([] ++ 7 ∷ 8199 ∷ [])
repeated_sum = add-add_all_repeated new_hyper_log_log [] (8199 ∷ []) 7

add_all-Perm_example :
    add_all new_hyper_log_log (7 ∷ 8199 ∷ []) ≡ add_all new_hyper_log_log (8199 ∷ 7 ∷ [])
add_all-Perm_example =
    add_all-Perm new_hyper_log_log (7 ∷ 8199 ∷ []) (8199 ∷ 7 ∷ []) (Perm.swap 8199 7 [])

two_added-IsValid : IsValid (add_all new_hyper_log_log (7 ∷ 8199 ∷ []))
two_added-IsValid = add_all-IsValid (7 ∷ 8199 ∷ [])
