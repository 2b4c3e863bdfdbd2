-- ===== src/Router/Tree/Prefix.antt =====
-- The common prefix of two paths, and what is left of a path after a prefix.
use goplusplus.Prelude.{
  ltb, length-append, true, ℕ, ◌≡◌, ◌≢◌, refl, ap, false, [], ◌∷◌, ◌++◌, none, some, ◌==◌, arith,
  length, Bool-cases, inl, inr, get_or,
}
use goplusplus.Prelude.Bytes.{Bytes, strip_prefix}
use goplusplus.Router.Tree.{longest_common_prefix, index_wild, is_wild}

-- The first bytes differ, where there are two.
abbrev pub Diverge : Bytes → Bytes → Type 0
Diverge [] ys = Unit
Diverge (x ∷ xs) [] = Unit
Diverge (x ∷ xs) (y ∷ ys) = x ≢ y

pub record CommonPrefix (xs ys : Bytes) : Type 0 where
  pub common : Bytes
  pub left : Bytes
  pub right : Bytes
  pub left_eq : common ++ left ≡ xs
  pub right_eq : common ++ right ≡ ys
  pub diverge : Diverge left right

pub common_prefix : (xs ys : Bytes) → CommonPrefix xs ys
common_prefix [] ys = record {
  common = [];
  left = [];
  right = ys;
  left_eq = refl;
  right_eq = refl;
  diverge = tt;
}
common_prefix (x ∷ xs) [] = record {
  common = [];
  left = x ∷ xs;
  right = [];
  left_eq = refl;
  right_eq = refl;
  diverge = tt;
}
common_prefix (x ∷ xs) (y ∷ ys) = elim (Bool-cases (x == y)) [
  | inl same ↦
      let v = common_prefix xs ys in
      record {
        common = x ∷ v.common;
        left = v.left;
        right = v.right;
        left_eq = ap (◌∷◌ x) v.left_eq;
        right_eq = ground (arith, v.right_eq);
        diverge = v.diverge;
      }
  | inr other ↦ record {
    common = [];
    left = x ∷ xs;
    right = y ∷ ys;
    left_eq = refl;
    right_eq = refl;
    diverge = λ e. ground arith;
  }
]

pub longest_common_prefix-append :
    (pre xs ys : Bytes) → Diverge xs ys → longest_common_prefix (pre ++ xs) (pre ++ ys) ≡ length pre
unfolding longest_common_prefix
longest_common_prefix-append [] [] ys d = refl
longest_common_prefix-append [] (x ∷ xs) [] d = refl
longest_common_prefix-append [] (x ∷ xs) (y ∷ ys) d = ground (arith, d)
longest_common_prefix-append (z ∷ pre) xs ys d =
    ground (arith, longest_common_prefix-append pre xs ys d)

pub get_or-append : (pre xs : Bytes) (d : ℕ) → get_or (pre ++ xs) (length pre) d ≡ get_or xs 0 d
get_or-append [] [] d = refl
get_or-append [] (x ∷ xs) d = refl
get_or-append (z ∷ pre) xs d = get_or-append pre xs d

pub strip_prefix-append :
    (xs ys q : Bytes)
    → strip_prefix (xs ++ ys) q
      ≡ (elim (strip_prefix xs q) [ none ↦ none | some r ↦ strip_prefix ys r ])
unfolding strip_prefix
strip_prefix-append [] ys q = refl
strip_prefix-append (x ∷ xs) ys [] = refl
strip_prefix-append (x ∷ xs) ys (c ∷ q) = ground (arith, strip_prefix-append xs ys q)

pub strip_prefix-some : (xs q r : Bytes) → strip_prefix xs q ≡ some r → xs ++ r ≡ q
unfolding strip_prefix
strip_prefix-some [] q r found = ground arith
strip_prefix-some (x ∷ xs) [] r found = absurd (ground arith)
strip_prefix-some (x ∷ xs) (c ∷ q) r found = ground (arith, strip_prefix-some xs q r)

pub strip_prefix_self : (xs r : Bytes) → strip_prefix xs (xs ++ r) ≡ some r
unfolding strip_prefix
strip_prefix_self [] r = refl
strip_prefix_self (x ∷ xs) r = ground (arith, strip_prefix_self xs r)

-- No ':' and no '*' in a path.
abbrev pub HasNoWild : Bytes → Type 0
HasNoWild path = index_wild path ≡ none

pub HasNoWild-append : (pre xs : Bytes) → HasNoWild (pre ++ xs) → HasNoWild xs
unfolding index_wild
HasNoWild-append [] xs h = h
HasNoWild-append (z ∷ pre) xs h = HasNoWild-append pre xs (ground (arith, h))

pub HasNoWild-head : (x : ℕ) (xs : Bytes) → HasNoWild (x ∷ xs) → is_wild x ≡ false
unfolding index_wild
HasNoWild-head x xs h = ground (arith, h)

-- Lengths compared.
pub ltb_self : (n : ℕ) → ltb n n ≡ false
ltb_self n = ground arith

pub ltb-longer :
    (pre : Bytes) (a : ℕ) (xs : Bytes) → ltb (length pre) (length (pre ++ a ∷ xs)) ≡ true
ltb-longer pre a xs = ground (arith, length-append pre (a ∷ xs))
