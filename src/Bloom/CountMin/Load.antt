-- ===== src/Bloom/CountMin/Load.antt =====
-- The load of a cell: what was added for all the items that share it.
use goplusplus.Prelude.{
  ℕ, ◌+◌, ◌%◌, ◌^◌, ◌≤◌, ◌<◌, ◌≡◌, refl, ap, String, List, [], ◌∷◌, if◌then◌else◌, ◌==◌, arith,
  length, replicate, All-replicate, length-replicate, str_eq, eq_iff, Bool-cases, inl, inr,
}
use goplusplus.Bloom.CountMin.{CountMinSketch, new_count_min_sketch, column, cell, add, add_all}
use goplusplus.Bloom.CountMin.Cells.{IsValid, add_from-IsValid, cell-add_from, add_from-same}

-- What was added for one item, and in all.
unfoldable pub true_count : String → List (String × ℕ) → ℕ
true_count item [] = 0
true_count item ((other, count) ∷ adds) =
    (if str_eq other item then count else 0) + true_count item adds

unfoldable pub total : List (String × ℕ) → ℕ
total [] = 0
total ((item, count) ∷ adds) = count + total adds

pub new-IsValid : IsValid new_count_min_sketch
unfolding new_count_min_sketch
new-IsValid = record {
  positive = omega arith;
  rows = refl;
  columns =
      All-replicate (λ row. length row ≡ 2048) 5 (replicate {A = ℕ} 2048 0)
        (length-replicate {A = ℕ} 2048 0);
}

pub new-dimensions : (new_count_min_sketch.depth ≡ 5) × (new_count_min_sketch.width ≡ 2048)
unfolding new_count_min_sketch
new-dimensions = (refl, refl)

module _ (sum64 : String → ℕ) where
  -- What was added for the items that share a cell.
  unfoldable pub load : ℕ → ℕ → ℕ → List (String × ℕ) → ℕ
  load width r c [] = 0
  load width r c ((item, count) ∷ adds) =
      (if column width (sum64 item) r == c then count else 0) + load width r c adds

  pub load-le-total : (width r c : ℕ) (adds : List (String × ℕ)) → load width r c adds ≤ total adds
  unfolding load total
  load-le-total width r c [] = omega arith
  load-le-total width r c ((item, count) ∷ adds) = ground (arith, load-le-total width r c adds)

  pub true_count-le-load :
      (width r : ℕ) (item : String) (adds : List (String × ℕ))
      → true_count item adds ≤ load width r (column width (sum64 item) r) adds
  unfolding load true_count
  true_count-le-load width r item [] = omega arith
  true_count-le-load width r item ((other, count) ∷ adds) = elim (Bool-cases (str_eq other item)) [
    | inl same ↦ ground (
      arith,
      true_count-le-load width r item adds,
      ap (λ (s : String). column width (sum64 s) r) ((eq_iff other item).0 same),
    )
    | inr different ↦ ground (arith, true_count-le-load width r item adds)
  ]

  add-IsValid :
      (cms : CountMinSketch) (item : String) (count : ℕ)
      → IsValid cms
      → IsValid (add sum64 cms item count)
  unfolding add
  add-IsValid cms item count v = add_from-IsValid sum64 cms.depth 0 cms item count (omega arith) v

  cell-add :
      (cms : CountMinSketch) (item : String) (count r c : ℕ)
      → IsValid cms
      → r < cms.depth
      → cell (add sum64 cms item count) r c ≡ (
          if column cms.width (sum64 item) r == c
          then (cell cms r c + count) % 2 ^ 64
          else cell cms r c)
  unfolding add
  cell-add cms item count r c v inside =
      ground (arith, cell-add_from sum64 cms.depth 0 cms item count r c (omega arith) v)

  add-same :
      (cms : CountMinSketch) (item : String) (count : ℕ)
      → ((add sum64 cms item count).depth ≡ cms.depth)
        × ((add sum64 cms item count).width ≡ cms.width)
  unfolding add
  add-same cms item count = add_from-same sum64 cms.depth 0 cms item count

  pub add_all-same :
      (cms : CountMinSketch) (adds : List (String × ℕ))
      → ((add_all sum64 cms adds).depth ≡ cms.depth) × ((add_all sum64 cms adds).width ≡ cms.width)
  unfolding add_all
  add_all-same cms [] = (refl, refl)
  add_all-same cms ((item, count) ∷ adds) =
      grind (arith, add_all-same (add sum64 cms item count) adds, add-same cms item count)

  -- With no wrap-around, a cell holds what it held and the load.
  pub cell-add_all :
      (cms : CountMinSketch) (adds : List (String × ℕ)) (r c : ℕ)
      → IsValid cms
      → r < cms.depth
      → cell cms r c + total adds < 2 ^ 64
      → cell (add_all sum64 cms adds) r c ≡ cell cms r c + load cms.width r c adds
  unfolding add_all load total
  cell-add_all cms [] r c v inside small = omega arith
  cell-add_all cms ((item, count) ∷ adds) r c v inside small =
      let cms' = add sum64 cms item count in
      let (depth, width) = add-same cms item count in
      ground (
        arith,
        depth,
        width,
        cell-add cms item count r c v inside,
        cell-add_all cms' adds r c (add-IsValid cms item count v),
      )
