-- ===== src/Bloom/CountMin/Cells.antt =====
-- What a cell of the sketch holds: the sum of the counts that hash to it.
use native.Mathlib.Nat.{mod-lt}
use goplusplus.Prelude.{
  ℕ, zero, suc, ◌+◌, ◌%◌, ◌^◌, ◌≤◌, ◌<◌, ◌≡◌, refl, ap, ◌∙◌, String, ◌&&◌, List, [], ◌∷◌,
  if◌then◌else◌, ltb, leb, ◌==◌, arith, length, set, get_or, All, All-set, length-set, get_or-set,
  Bool-cases, ==_iff, inl, inr,
}
use goplusplus.Bloom.CountMin.{CountMinSketch, column, cell, bump, add_from}

-- The matrix has `depth` rows of `width` columns.
pub record IsValid (cms : CountMinSketch) : Type 0 where
  pub positive : 0 < cms.width
  pub rows : length cms.matrix ≡ cms.depth
  pub columns : All (λ row. length row ≡ cms.width) cms.matrix

get_or-All_lt {κ} :
    (P : List ℕ → Type κ) (xs : List (List ℕ)) (i : ℕ)
    → All P xs
    → i < length xs
    → P (get_or xs i [])
get_or-All_lt P [] i h lt = elim lt [ ]
get_or-All_lt P (x ∷ xs) zero h lt = h.0
get_or-All_lt P (x ∷ xs) (suc i) h lt = get_or-All_lt P xs i h.1 (omega arith)

bump-IsValid :
    (cms : CountMinSketch) (i j count : ℕ)
    → i < cms.depth
    → IsValid cms
    → IsValid (bump cms i j count)
unfolding bump
bump-IsValid cms i j count inside v = record {
  positive = v.positive;
  rows = length-set cms.matrix i _ ∙ v.rows;
  columns =
      All-set (λ row. length row ≡ cms.width) cms.matrix i _ v.columns
        (length-set (get_or cms.matrix i []) j _
          ∙ get_or-All_lt (λ row. length row ≡ cms.width) cms.matrix i v.columns
              (omega (arith, v.rows)));
}

width-bump : (cms : CountMinSketch) (i j count : ℕ) → (bump cms i j count).width ≡ cms.width
unfolding bump
width-bump cms i j count = refl

-- One assignment changes one cell.
cell-bump :
    (cms : CountMinSketch) (i j count r c : ℕ)
    → IsValid cms
    → i < cms.depth
    → j < cms.width
    → cell (bump cms i j count) r c
      ≡ (if (i == r) && (j == c) then (cell cms r c + count) % 2 ^ 64 else cell cms r c)
unfolding bump
cell-bump cms i j count r c v inside_rows inside_columns =
    let row = get_or cms.matrix i [] in
    ground (
      arith,
      v.rows,
      get_or-All_lt (λ l. length l ≡ cms.width) cms.matrix i v.columns,
      get_or-set cms.matrix i (set row j ((get_or row j 0 + count) % 2 ^ 64)) r [],
      get_or-set row j ((get_or row j 0 + count) % 2 ^ 64) c 0,
    )

module _ (sum64 : String → ℕ) where
  pub add_from-IsValid :
      (n i : ℕ) (cms : CountMinSketch) (item : String) (count : ℕ)
      → i + n ≤ cms.depth
      → IsValid cms
      → IsValid (add_from sum64 n i cms item count)
  unfolding add_from
  add_from-IsValid zero i cms item count fits v = v
  add_from-IsValid (suc n) i cms item count fits v =
      add_from-IsValid n (i + 1) (bump cms i (column cms.width (sum64 item) i) count) item count
        (unfold bump in (omega arith))
        (bump-IsValid cms i (column cms.width (sum64 item) i) count (omega arith) v)

  pub add_from-same :
      (n i : ℕ) (cms : CountMinSketch) (item : String) (count : ℕ)
      → ((add_from sum64 n i cms item count).depth ≡ cms.depth)
        × ((add_from sum64 n i cms item count).width ≡ cms.width)
  unfolding add_from bump
  add_from-same zero i cms item count = (refl, refl)
  add_from-same (suc n) i cms item count =
      add_from-same n (i + 1) (bump cms i (column cms.width (sum64 item) i) count) item count

  -- The loop adds the count, once, to the item's cell of each row from i on.
  pub cell-add_from :
      (n i : ℕ) (cms : CountMinSketch) (item : String) (count r c : ℕ)
      → i + n ≤ cms.depth
      → IsValid cms
      → cell (add_from sum64 n i cms item count) r c ≡ (
          if leb i r && ltb r (i + n) && (column cms.width (sum64 item) r == c)
          then (cell cms r c + count) % 2 ^ 64
          else cell cms r c)
  unfolding add_from
  cell-add_from zero i cms item count r c fits v = ground arith
  cell-add_from (suc n) i cms item count r c fits v =
      let j = column cms.width (sum64 item) i in
      let cms' = bump cms i j count in
      let later =
        cell-add_from n (i + 1) cms' item count r c (unfold bump in (omega arith))
          (bump-IsValid cms i j count (omega arith) v) in
      let here =
        cell-bump cms i j count r c v (omega arith) (unfold column in (mod-lt _ v.positive)) in
      elim (Bool-cases (i == r)) [
        | inl same ↦ ground (
          arith,
          later,
          here,
          width-bump cms i j count,
          ap (λ (k : ℕ). column cms.width (sum64 item) k) ((==_iff i r).0 same),
        )
        | inr other ↦ ground (arith, later, here, width-bump cms i j count)
      ]
