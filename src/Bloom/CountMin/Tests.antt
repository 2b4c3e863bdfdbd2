-- ===== src/Bloom/CountMin/Tests.antt =====
-- A sketch of a few items under a toy hash.
use Prim.Native.String.{len}
use goplusplus.Prelude.{ℕ, ◌≡◌, refl, ◌≤◌, String, List, [], ◌∷◌, arith}
use goplusplus.Bloom.CountMin.{
  new_count_min_sketch, column, bump, add_from, add, estimate_from, estimate_frequency, add_all,
}
use goplusplus.Bloom.CountMin.Estimate.{estimate_frequency_bounds}
use goplusplus.Bloom.CountMin.Load.{true_count, total}

program : Unit {0}
unfolding new_count_min_sketch column bump add_from add estimate_from estimate_frequency add_all
    true_count total
program = tt

abbrev visits : List (String × ℕ)
visits = ("a", 3) ∷ ("bc", 4) ∷ ("a", 5) ∷ []

visits_estimate : estimate_frequency len (add_all len new_count_min_sketch visits) "a" ≡ 8
unfolding program
visits_estimate = refl

estimate_frequency_bounds_example :
    (true_count "a" visits ≤ estimate_frequency len (add_all len new_count_min_sketch visits) "a")
    × (estimate_frequency len (add_all len new_count_min_sketch visits) "a" ≤ total visits)
unfolding total
estimate_frequency_bounds_example = estimate_frequency_bounds len visits "a" (omega arith)
