-- ===== src/Bloom/CountMin.antt =====
-- bloom/bloom.go, CountMinSketch. Counters are uint64 and wrap around.
pub mod Cells
pub mod Load
pub mod Estimate
mod Tests
use goplusplus.Prelude.{
  ℕ, zero, suc, ◌+◌, ◌-◌, ◌*◌, ◌%◌, ◌^◌, String, List, [], ◌∷◌, if◌then◌else◌, ltb, set, get_or,
  replicate,
}

pub record CountMinSketch : Type 0 where
  pub matrix : List (List ℕ)
  pub depth : ℕ
  pub width : ℕ

unfoldable pub new_count_min_sketch : CountMinSketch
new_count_min_sketch = record { matrix = replicate 5 (replicate 2048 0); depth = 5; width = 2048 }

-- (h.Sum64() + i*0x9e3779b97f4a7c15) % cms.width, in uint64.
unfoldable pub column : ℕ → ℕ → ℕ → ℕ
column width sum i = (sum + i * 0x9e3779b97f4a7c15 % 2 ^ 64) % 2 ^ 64 % width

abbrev pub cell : CountMinSketch → ℕ → ℕ → ℕ
cell cms i j = get_or (get_or cms.matrix i []) j 0

-- cms.matrix[i][j] += count
unfoldable pub bump : CountMinSketch → ℕ → ℕ → ℕ → CountMinSketch
bump cms i j count =
    let row = get_or cms.matrix i [] in
    record cms { matrix = set cms.matrix i (set row j ((get_or row j 0 + count) % 2 ^ 64)) }

module _ (sum64 : String → ℕ) where
  unfoldable pub add_from : ℕ → ℕ → CountMinSketch → String → ℕ → CountMinSketch
  add_from zero i cms item count = cms
  add_from (suc n) i cms item count =
      add_from n (i + 1) (bump cms i (column cms.width (sum64 item) i) count) item count

  unfoldable pub add : CountMinSketch → String → ℕ → CountMinSketch
  add cms item count = add_from cms.depth 0 cms item count

  unfoldable pub estimate_from : ℕ → ℕ → CountMinSketch → String → ℕ → ℕ
  estimate_from zero i cms item min_val = min_val
  estimate_from (suc n) i cms item min_val =
      let here = cell cms i (column cms.width (sum64 item) i) in
      estimate_from n (i + 1) cms item (if ltb here min_val then here else min_val)

  unfoldable pub estimate_frequency : CountMinSketch → String → ℕ
  estimate_frequency cms item = estimate_from cms.depth 0 cms item (2 ^ 64 - 1)

  unfoldable pub add_all : CountMinSketch → List (String × ℕ) → CountMinSketch
  add_all cms [] = cms
  add_all cms ((item, count) ∷ adds) = add_all (add cms item count) adds
