-- ===== src/Bloom/Filter/Tests.antt =====
-- A small filter with a toy hash, and the theorems at it.
use Prim.Native.String.{len}
use goplusplus.Prelude.{ℕ, ◌+◌, ◌≡◌, refl, ◌++◌, String, true, false, [], ◌∷◌}
use goplusplus.Bloom.Filter.{
  Sizing, new_filter, hash, add_from, add, may_contain_from, may_contain, add_all,
}
use goplusplus.Bloom.Filter.Membership.{new_filter-may_contain, new_filter-empty}

abbrev toy_sum : String → ℕ
toy_sum key = len key + 40

abbrev toy_sizing : Sizing
toy_sizing = record {
  Rate = ℕ;
  out_of_range = λ rate. false;
  one_percent = 1;
  bits = λ capacity rate. capacity + 7;
  hashes = λ m capacity. 2;
}

program : Unit {0}
unfolding new_filter hash add_from add may_contain_from may_contain add_all
program = tt

absent : may_contain toy_sum (add toy_sum (new_filter toy_sizing 4 1) "ab") "abc" ≡ false
unfolding program
absent = refl

new_filter-may_contain_example :
    may_contain toy_sum
      (add_all toy_sum (new_filter toy_sizing 4 1) ("x" ∷ [] ++ "ab" ∷ "abcd" ∷ []))
      "ab"
    ≡ true
new_filter-may_contain_example =
    new_filter-may_contain toy_sum toy_sizing 4 1 ("x" ∷ []) ("abcd" ∷ []) "ab"

nothing_at_first : may_contain toy_sum (new_filter toy_sizing 4 1) "ab" ≡ false
nothing_at_first = new_filter-empty toy_sum toy_sizing 4 1 "ab"
