-- ===== src/Bloom/Filter.antt =====
-- bloom/bloom.go, Filter. The sizes that `NewFilter` computes in floating point are parameters:
-- what the conversions to uint64 return for a capacity and a rate.
pub mod Membership
mod Tests
use goplusplus.Prelude.{
  ℕ, zero, suc, ◌+◌, ◌*◌, ◌%◌, ◌^◌, String, Bool, true, false, List, [], ◌∷◌, if◌then◌else◌, ◌==◌,
  set, get_or, replicate,
}

pub record Filter : Type 0 where
  pub bitset : List Bool
  pub size : ℕ
  pub hash_count : ℕ

-- Floating-point rates, with what the constructor uses of them.
pub record Sizing : Type 1 where
  pub Rate : Type 0
  pub out_of_range : Rate → Bool
  pub one_percent : Rate
  pub bits : ℕ → Rate → ℕ
  pub hashes : ℕ → ℕ → ℕ

module _ (sizing : Sizing) where
  open sizing use {Rate, out_of_range, one_percent, bits, hashes}

  unfoldable pub new_filter : ℕ → Rate → Filter
  new_filter capacity fp_rate =
      let capacity' : ℕ = if capacity == 0 then 10000 else capacity in
      let fp_rate' = if out_of_range fp_rate then one_percent else fp_rate in
      let m = bits capacity' fp_rate' in
      let k = hashes m capacity' in
      let m' : ℕ = if m == 0 then 1000 else m in
      let k' : ℕ = if k == 0 then 3 else k in
      record { bitset = replicate m' false; size = m'; hash_count = k' }

abbrev pub golden : ℕ
golden = 0x9e3779b97f4a7c15

-- h.Sum64() + seed * 0x9e3779b97f4a7c15 in uint64, for a key with the given sum.
unfoldable pub hash : ℕ → ℕ → ℕ
hash sum seed = (sum + seed * golden % 2 ^ 64) % 2 ^ 64

module _ (sum64 : String → ℕ) where
  abbrev pub bit_index : Filter → String → ℕ → ℕ
  bit_index f key i = hash (sum64 key) i % f.size

  -- The loop of `Add` from round i on.
  unfoldable pub add_from : ℕ → ℕ → Filter → String → Filter
  add_from zero i f key = f
  add_from (suc n) i f key =
      add_from n (i + 1) (record f { bitset = set f.bitset (bit_index f key i) true }) key

  unfoldable pub add : Filter → String → Filter
  add f key = add_from f.hash_count 0 f key

  unfoldable pub may_contain_from : ℕ → ℕ → Filter → String → Bool
  may_contain_from zero i f key = true
  may_contain_from (suc n) i f key =
      let rest = may_contain_from n (i + 1) f key in
      if get_or f.bitset (bit_index f key i) false then rest else false

  unfoldable pub may_contain : Filter → String → Bool
  may_contain f key = may_contain_from f.hash_count 0 f key

  unfoldable pub add_all : Filter → List String → Filter
  add_all f [] = f
  add_all f (key ∷ keys) = add_all (add f key) keys
