-- ===== src/Router/Tree/Index.antt =====
-- Lemmas on the index of a byte, which finds the child of a node, and on equal paths.
use mathlib.Core.List.{append-nil}
use goplusplus.Prelude.{
  ℕ, ◌≡◌, ◌≢◌, refl, sym, ap, ◌∙◌, ◌<◌, true, false, [], ◌∷◌, ◌++◌, none, some, if◌then◌else◌, ◌==◌,
  ==_iff, arith, length, Bool-cases, Option-cases, inl, inr,
}
use goplusplus.Prelude.Bytes.{Bytes, bytes_eq, index_byte, strip_prefix}

pub index_byte-first :
    (x : ℕ) (indices : Bytes) (c : ℕ) → (x == c) ≡ true → index_byte (x ∷ indices) c ≡ some 0
unfolding index_byte
index_byte-first x indices c same = rw same refl

pub index_byte-only : (x c : ℕ) → (x == c) ≡ false → index_byte (x ∷ []) c ≡ none
unfolding index_byte
index_byte-only x c other = ground arith

pub index_byte-second :
    (x y c : ℕ) → (x == c) ≡ false → (y == c) ≡ true → index_byte (x ∷ y ∷ []) c ≡ some 1
unfolding index_byte
index_byte-second x y c other same = ground arith

pub index_byte-neither :
    (x y c : ℕ) → (x == c) ≡ false → (y == c) ≡ false → index_byte (x ∷ y ∷ []) c ≡ none
unfolding index_byte
index_byte-neither x y c other third = ground arith

pub index_byte-lt : (indices : Bytes) (c k : ℕ) → index_byte indices c ≡ some k → k < length indices
unfolding index_byte
index_byte-lt [] c k found = absurd (ground arith)
index_byte-lt (x ∷ xs) c k found = elim (Option-cases (index_byte xs c)) [
  | inl absent ↦ ground (arith, absent)
  | inr (i, present) ↦ ground (arith, present, index_byte-lt xs c i present)
]

pub index_byte-snoc :
    (indices : Bytes) (a c : ℕ)
    → index_byte indices a ≡ none
    → index_byte (indices ++ a ∷ []) c
      ≡ (if a == c then some (length indices) else index_byte indices c)
unfolding index_byte
index_byte-snoc [] a c absent = ground arith
index_byte-snoc (x ∷ xs) a c absent = elim (Option-cases (index_byte xs a)) [
  | inr (i, present) ↦ absurd (ground (arith, absent, present))
  | inl later ↦ ground (arith, absent, later, index_byte-snoc xs a c later)
]

pub index_byte-apart :
    (indices : Bytes) (a c : ℕ) → index_byte indices a ≢ index_byte indices c → (a == c) ≡ false
index_byte-apart indices a c apart = elim (Bool-cases (a == c)) [
  | inr other ↦ other
  | inl same ↦ absurd (apart (ap (index_byte indices) ((==_iff a c).0 same)))
]

pub index_byte-snoc_at :
    (indices : Bytes) (a c : ℕ)
    → index_byte indices a ≡ none
    → (a == c) ≡ true
    → index_byte (indices ++ a ∷ []) c ≡ some (length indices)
index_byte-snoc_at indices a c absent same = rw (index_byte-snoc indices a c absent, same) refl

pub index_byte-snoc_other :
    (indices : Bytes) (a c : ℕ)
    → index_byte indices a ≡ none
    → (a == c) ≡ false
    → index_byte (indices ++ a ∷ []) c ≡ index_byte indices c
index_byte-snoc_other indices a c absent other = rw (index_byte-snoc indices a c absent, other) refl

pub bytes_eq-append :
    (pre xs q : Bytes)
    → bytes_eq q (pre ++ xs) ≡ (elim (strip_prefix pre q) [ none ↦ false | some r ↦ bytes_eq r xs ])
unfolding bytes_eq strip_prefix
bytes_eq-append [] xs q = refl
bytes_eq-append (x ∷ pre) xs [] = refl
bytes_eq-append (x ∷ pre) xs (c ∷ q) = ground (arith, bytes_eq-append pre xs q)

pub bytes_eq-strip :
    (xs q : Bytes)
    → bytes_eq q xs ≡ (elim (strip_prefix xs q) [ none ↦ false | some r ↦ bytes_eq r [] ])
bytes_eq-strip xs q = ap (bytes_eq q) (sym (append-nil xs)) ∙ bytes_eq-append xs [] q
