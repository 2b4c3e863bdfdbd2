-- ===== src/Prelude/Split.antt =====
-- strings.Split and strings.Join at one separator byte.
use Prim.Native.Nat.{ℕ}
use mathlib.Core.Path.{◌≡◌, refl, ap}
use mathlib.Core.Bool.{true, false}
use mathlib.Core.List.{List, [], ◌∷◌, ◌++◌}
use native.Mathlib.Omega.{arith}
use goplusplus.Prelude.Tests.{◌==◌, if◌then◌else◌, Bool-cases}
use goplusplus.Prelude.Bytes.{Bytes}
use mathlib.Core.Logic.{inl, inr}

-- strings.Split (s, sep): the first part and those after it
unfoldable pub split_on : ℕ → Bytes → Bytes × List Bytes
split_on sep [] = ([], [])
split_on sep (c ∷ s) =
    let rest = split_on sep s in if c == sep then ([], rest.0 ∷ rest.1) else (c ∷ rest.0, rest.1)

abbrev pub parts_on : ℕ → Bytes → List Bytes
parts_on sep s = (split_on sep s).0 ∷ (split_on sep s).1

-- strings.Join (parts, sep)
abbrev pub join_on : ℕ → List Bytes → Bytes
join_on sep [] = []
join_on sep (part ∷ []) = part
join_on sep (part ∷ next ∷ rest) = part ++ sep ∷ join_on sep (next ∷ rest)

-- No separator in a part.
abbrev pub IsPart : ℕ → Bytes → Type 0
IsPart sep [] = Unit
IsPart sep (c ∷ s) = ((c == sep) ≡ false) × IsPart sep s

abbrev pub AreParts : ℕ → List Bytes → Type 0
AreParts sep [] = Unit
AreParts sep (s ∷ ss) = IsPart sep s × AreParts sep ss

split_on-AreParts :
    (sep : ℕ) (s : Bytes) → IsPart sep (split_on sep s).0 × AreParts sep (split_on sep s).1
unfolding split_on
split_on-AreParts sep [] = (tt, tt)
split_on-AreParts sep (c ∷ s) =
    let (first, rest) = split_on-AreParts sep s in
    elim (Bool-cases (c == sep)) [
      | inl cut ↦ rw (split_on, cut) (tt, (first, rest))
      | inr kept ↦ rw (split_on, kept) ((kept, first), rest)
    ]

pub parts_on-AreParts : (sep : ℕ) (s : Bytes) → AreParts sep (parts_on sep s)
parts_on-AreParts sep s = split_on-AreParts sep s

pub IsPart-append : (sep : ℕ) (s t : Bytes) → IsPart sep s → IsPart sep t → IsPart sep (s ++ t)
IsPart-append sep [] t one two = two
IsPart-append sep (c ∷ s) t one two = (one.0, IsPart-append sep s t one.1 two)

refl_test : (sep : ℕ) → (sep == sep) ≡ true
refl_test sep = ground arith

-- Parts that are joined and split again.
pub split_on-part : (sep : ℕ) (s : Bytes) → IsPart sep s → split_on sep s ≡ (s, [])
unfolding split_on
split_on-part sep [] plain = refl
split_on-part sep (c ∷ s) plain = rw (split_on, plain.0, split_on-part sep s plain.1) refl

pub split_on-append :
    (sep : ℕ) (s t : Bytes) → IsPart sep s → split_on sep (s ++ sep ∷ t) ≡ (s, parts_on sep t)
unfolding split_on
split_on-append sep [] t plain = rw (refl_test sep) refl
split_on-append sep (c ∷ s) t plain = rw (split_on, plain.0, split_on-append sep s t plain.1) refl

pub parts_on-join_on :
    (sep : ℕ) (s : Bytes) (ss : List Bytes)
    → AreParts sep (s ∷ ss)
    → parts_on sep (join_on sep (s ∷ ss)) ≡ s ∷ ss
parts_on-join_on sep s [] all = rw (split_on-part sep s all.0) refl
parts_on-join_on sep s (t ∷ ss) all =
    rw (split_on-append sep s (join_on sep (t ∷ ss)) all.0)
      (ap (◌∷◌ s) (parts_on-join_on sep t ss all.1))
