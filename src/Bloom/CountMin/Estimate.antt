-- ===== src/Bloom/CountMin/Estimate.antt =====
-- The sketch never estimates less than what was added, nor more than all that was added.
use goplusplus.Prelude.{
  ℕ, zero, suc, ◌+◌, ◌-◌, ◌^◌, ◌≤◌, ◌<◌, ◌≡◌, refl, sym, ap, subst, ◌∙◌, String, List,
  if◌then◌else◌, ltb, arith, get_or-replicate,
}
use goplusplus.Bloom.CountMin.{
  CountMinSketch, new_count_min_sketch, column, cell, estimate_from, estimate_frequency, add_all,
}
use goplusplus.Bloom.CountMin.Load.{
  true_count, total, new-IsValid, new-dimensions, load, load-le-total, true_count-le-load,
  add_all-same, cell-add_all,
}

module _ (sum64 : String → ℕ) where
  le-estimate_from :
      (n i : ℕ) (cms : CountMinSketch) (item : String) (min_val least : ℕ)
      → ((r : ℕ) → r < i + n → least ≤ cell cms r (column cms.width (sum64 item) r))
      → least ≤ min_val
      → least ≤ estimate_from sum64 n i cms item min_val
  unfolding estimate_from
  le-estimate_from zero i cms item min_val least h m = m
  le-estimate_from (suc n) i cms item min_val least h m =
      le-estimate_from n (i + 1) cms item _ least (λ r lt. h r (omega arith))
        (ground (arith, h i (omega arith)))

  estimate_from-le :
      (n i : ℕ) (cms : CountMinSketch) (item : String) (min_val : ℕ)
      → estimate_from sum64 n i cms item min_val ≤ min_val
  unfolding estimate_from
  estimate_from-le zero i cms item min_val = omega arith
  estimate_from-le (suc n) i cms item min_val = ground (
    arith,
    estimate_from-le n (i + 1) cms item (
        if ltb (cell cms i (column cms.width (sum64 item) i)) min_val
        then cell cms i (column cms.width (sum64 item) i)
        else min_val),
  )

  estimate_from-le-first :
      (n i : ℕ) (cms : CountMinSketch) (item : String) (min_val : ℕ)
      → estimate_from sum64 (suc n) i cms item min_val
        ≤ cell cms i (column cms.width (sum64 item) i)
  unfolding estimate_from
  estimate_from-le-first n i cms item min_val = ground (
    arith,
    estimate_from-le n (i + 1) cms item (
        if ltb (cell cms i (column cms.width (sum64 item) i)) min_val
        then cell cms i (column cms.width (sum64 item) i)
        else min_val),
  )

  cell-new : (r c : ℕ) → cell new_count_min_sketch r c ≡ 0
  unfolding new_count_min_sketch
  cell-new zero c = get_or-replicate 2048 c 0
  cell-new (suc zero) c = get_or-replicate 2048 c 0
  cell-new (suc (suc zero)) c = get_or-replicate 2048 c 0
  cell-new (suc (suc (suc zero))) c = get_or-replicate 2048 c 0
  cell-new (suc (suc (suc (suc zero)))) c = get_or-replicate 2048 c 0
  cell-new (suc (suc (suc (suc (suc r))))) c = refl

  cell-sketch :
      (adds : List (String × ℕ)) (r c : ℕ)
      → r < 5
      → total adds < 2 ^ 64
      → cell (add_all sum64 new_count_min_sketch adds) r c ≡ load sum64 2048 r c adds
  cell-sketch adds r c inside small = ground (
    arith,
    cell-new r c,
    cell-add_all sum64 new_count_min_sketch adds r c new-IsValid
        (unfold new_count_min_sketch in inside),
    new-dimensions,
  )

  sketch-dimensions :
      (adds : List (String × ℕ))
      → ((add_all sum64 new_count_min_sketch adds).depth ≡ 5)
        × ((add_all sum64 new_count_min_sketch adds).width ≡ 2048)
  sketch-dimensions adds =
      let (depth, width) = add_all-same sum64 new_count_min_sketch adds in
      (depth ∙ new-dimensions.0, width ∙ new-dimensions.1)

  -- Each of the item's cells has at least the item's count and at most the total.
  item_cell_bounds :
      (adds : List (String × ℕ)) (item : String) (r : ℕ)
      → r < 5
      → total adds < 2 ^ 64
      → let cms = add_all sum64 new_count_min_sketch adds in
        (true_count item adds ≤ cell cms r (column cms.width (sum64 item) r))
        × (cell cms r (column cms.width (sum64 item) r) ≤ total adds)
  item_cell_bounds adds item r inside small =
      let width = (sketch-dimensions adds).1 in
      let j = column 2048 (sum64 item) r in
      ground (
        arith,
        ap (λ (w : ℕ). column w (sum64 item) r) width,
        cell-sketch adds r j inside small,
        true_count-le-load sum64 2048 r item adds,
        load-le-total sum64 2048 r j adds,
      )

  -- Whatever the hash is: if the counts added since the sketch was made stay below 2^64 in all, its
  -- estimate for an item is at least what was added for that item, and at most all that was added.
  pub estimate_frequency_bounds :
      (adds : List (String × ℕ)) (item : String)
      → total adds < 2 ^ 64
      → (true_count item adds
          ≤ estimate_frequency sum64 (add_all sum64 new_count_min_sketch adds) item)
        × (estimate_frequency sum64 (add_all sum64 new_count_min_sketch adds) item ≤ total adds)
  unfolding estimate_frequency
  estimate_frequency_bounds adds item small =
      let cms = add_all sum64 new_count_min_sketch adds in
      let all_bits : ℕ = 2 ^ 64 - 1 in
      let first = item_cell_bounds adds item 0 (omega arith) small in
      subst
        (λ (n : ℕ).
          (true_count item adds ≤ estimate_from sum64 n 0 cms item all_bits)
          × (estimate_from sum64 n 0 cms item all_bits ≤ total adds))
        (sym (sketch-dimensions adds).0)
        (
          le-estimate_from 5 0 cms item all_bits (true_count item adds)
              (λ r lt. (item_cell_bounds adds item r lt small).0) (omega arith),
          omega (arith, estimate_from-le-first 4 0 cms item all_bits),
        )
