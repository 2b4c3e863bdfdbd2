-- ===== src/Bloom/HyperLogLog/Registers.antt =====
-- The registers: bounds, and independence of the order and the number of additions.
use mathlib.Core.Logic.{∥∥₁_elim}
use mathlib.Core.List.{Perm, Permᴰ}
use goplusplus.Prelude.{
  ℕ, suc, ◌/◌, ◌%◌, ◌^◌, ◌≤◌, ◌≡◌, refl, sym, ap, ◌∙◌, zero, List, [], ◌∷◌, ◌++◌, max, arith, ltb,
  if◌then◌else◌, Bool-cases, inl, inr, length, set, get_or, All, All-set, All-replicate, length-set,
  length-replicate,
}
use goplusplus.Bloom.HyperLogLog.{HyperLogLog, new_hyper_log_log, rank, add, add_all}
use goplusplus.Bloom.HyperLogLog.Rank.{rank-IsRank}

-- 1024 registers, each of which holds 0 or a rank.
pub record IsValid (hll : HyperLogLog) : Type 0 where
  pub buckets : hll.m ≡ 1024
  pub sized : length hll.registers ≡ 1024
  pub bounded : All (λ r. r ≤ 64) hll.registers

new-IsValid : IsValid new_hyper_log_log
unfolding new_hyper_log_log
new-IsValid = record {
  buckets = refl;
  sized = length-replicate {A = ℕ} 1024 0;
  bounded = All-replicate (λ r. r ≤ 64) 1024 0 (omega arith);
}

rank-le : (val : ℕ) → rank val ≤ 64
rank-le val = let (halvings, rest, at, most, shifted, stop) = rank-IsRank val in most

-- The assignment under the test is an unconditional one of the larger value.
raise : List ℕ → ℕ → ℕ → List ℕ
raise rs i v = set rs i (max (get_or rs i 0) v)

raise_comm : (rs : List ℕ) (i j v w : ℕ) → raise (raise rs i v) j w ≡ raise (raise rs j w) i v
unfolding raise
raise_comm [] i j v w = refl
raise_comm (x ∷ rs) zero zero v w = ap (λ (y : ℕ). y ∷ rs) (omega arith)
raise_comm (x ∷ rs) zero (suc j) v w = refl
raise_comm (x ∷ rs) (suc i) zero v w = refl
raise_comm (x ∷ rs) (suc i) (suc j) v w = ap (◌∷◌ x) (raise_comm rs i j v w)

raise_idem : (rs : List ℕ) (i v : ℕ) → raise (raise rs i v) i v ≡ raise rs i v
unfolding raise
raise_idem [] i v = refl
raise_idem (x ∷ rs) zero v = ap (λ (y : ℕ). y ∷ rs) (omega arith)
raise_idem (x ∷ rs) (suc i) v = ap (◌∷◌ x) (raise_idem rs i v)

raise_small : (rs : List ℕ) (i v : ℕ) → v ≤ get_or rs i 0 → raise rs i v ≡ rs
unfolding raise
raise_small [] i v h = refl
raise_small (x ∷ rs) zero v h = ap (λ (y : ℕ). y ∷ rs) (omega arith)
raise_small (x ∷ rs) (suc i) v h = ap (◌∷◌ x) (raise_small rs i v h)

after : HyperLogLog → ℕ → HyperLogLog
after hll sum = record hll { registers = raise hll.registers (sum % hll.m) (rank (sum / 2 ^ 10)) }

raise-if :
    (rs : List ℕ) (i v : ℕ) → (if ltb (get_or rs i 0) v then set rs i v else rs) ≡ raise rs i v
unfolding raise
raise-if rs i v = elim (Bool-cases (ltb (get_or rs i 0) v)) [
  | inl grows ↦ rw grows (ap (λ (u : ℕ). set rs i u) (ground arith))
  | inr stays ↦ rw stays (sym (raise_small rs i v (ground arith)))
]

add-after : (hll : HyperLogLog) (sum : ℕ) → add hll sum ≡ after hll sum
unfolding add after
add-after hll sum = ground (arith, raise-if hll.registers (sum % hll.m) (rank (sum / 2 ^ 10)))

add_comm : (hll : HyperLogLog) (a b : ℕ) → add (add hll a) b ≡ add (add hll b) a
unfolding after
add_comm hll a b = simp add-after (
    ap (λ (rs : List ℕ). record hll { registers = rs })
      (raise_comm hll.registers (a % hll.m) (b % hll.m) (rank (a / 2 ^ 10)) (rank (b / 2 ^ 10))))

add_idem : (hll : HyperLogLog) (a : ℕ) → add (add hll a) a ≡ add hll a
unfolding after
add_idem hll a = simp add-after (
    ap (λ (rs : List ℕ). record hll { registers = rs })
      (raise_idem hll.registers (a % hll.m) (rank (a / 2 ^ 10))))

add_all-add :
    (hll : HyperLogLog) (a : ℕ) (sums : List ℕ)
    → add_all (add hll a) sums ≡ add (add_all hll sums) a
unfolding add_all
add_all-add hll a [] = refl
add_all-add hll a (b ∷ sums) =
    ap (λ (h : HyperLogLog). add_all h sums) (add_comm hll a b) ∙ add_all-add (add hll b) a sums

-- Adding an element that was added before changes no register, whatever was added in between.
pub add-add_all_repeated :
    (hll : HyperLogLog) (before between : List ℕ) (sum : ℕ)
    → add (add_all hll (before ++ sum ∷ between)) sum ≡ add_all hll (before ++ sum ∷ between)
unfolding add_all
add-add_all_repeated hll [] between sum =
    ap (λ (h : HyperLogLog). add h sum) (add_all-add hll sum between)
    ∙ add_idem (add_all hll between) sum
    ∙ sym (add_all-add hll sum between)
add-add_all_repeated hll (a ∷ before) between sum =
    add-add_all_repeated (add hll a) before between sum

add_all-Permᴰ : (hll : HyperLogLog) {xs ys : List ℕ} → Permᴰ xs ys → add_all hll xs ≡ add_all hll ys
unfolding add_all
add_all-Permᴰ hll Permᴰ.nil = refl
add_all-Permᴰ hll (Permᴰ.cons {a} {b} {l₁} e p) =
    ap (λ (x : ℕ). add_all (add hll x) l₁) e ∙ add_all-Permᴰ (add hll b) p
add_all-Permᴰ hll (Permᴰ.swap {a} {b} {a'} {b'} {l} e f) =
    ap (λ (h : HyperLogLog). add_all h l)
      (add_comm hll a b
        ∙ ap (λ (x : ℕ). add (add hll x) a) f
        ∙ ap (λ (x : ℕ). add (add hll a') x) e)
add_all-Permᴰ hll (Permᴰ.trans p q) = add_all-Permᴰ hll p ∙ add_all-Permᴰ hll q

HyperLogLog-set : IsSet HyperLogLog
HyperLogLog-set = hlevel

-- The registers do not depend on the order in which elements are added.
pub add_all-Perm :
    (hll : HyperLogLog) (xs ys : List ℕ) → Perm xs ys → add_all hll xs ≡ add_all hll ys
add_all-Perm hll xs ys p = ∥∥₁_elim p (HyperLogLog-set _ _) (add_all-Permᴰ hll)

add-IsValid : (hll : HyperLogLog) (sum : ℕ) → IsValid hll → IsValid (add hll sum)
unfolding add
add-IsValid hll sum v =
    let i = sum % hll.m in
    let r = rank (sum / 2 ^ 10) in
    elim (Bool-cases (ltb (get_or hll.registers i 0) r)) [
      | inl grows ↦
          rw (grows, add)
            (record {
              buckets = v.buckets;
              sized = length-set hll.registers i r ∙ v.sized;
              bounded = All-set (λ x. x ≤ 64) hll.registers i r v.bounded (rank-le (sum / 2 ^ 10));
            })
      | inr stays ↦ rw (stays, add) v
    ]

add_all-IsValid_from :
    (hll : HyperLogLog) (sums : List ℕ) → IsValid hll → IsValid (add_all hll sums)
unfolding add_all
add_all-IsValid_from hll [] v = v
add_all-IsValid_from hll (sum ∷ sums) v =
    add_all-IsValid_from (add hll sum) sums (add-IsValid hll sum v)

-- From a new counter on, there are always 1024 registers with values up to 64, so that every index
-- is in range and every value fits the uint8.
pub add_all-IsValid : (sums : List ℕ) → IsValid (add_all new_hyper_log_log sums)
add_all-IsValid sums = add_all-IsValid_from new_hyper_log_log sums new-IsValid
