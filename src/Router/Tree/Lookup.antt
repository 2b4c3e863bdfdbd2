-- ===== src/Router/Tree/Lookup.antt =====
-- A lookup in a tree of static nodes strips each node's path and goes on at the byte that follows.
use goplusplus.Prelude.{
  ℕ, zero, suc, ◌≡◌, refl, sym, ap, subst, ◌∙◌, true, false, [], ◌∷◌, ◌++◌, Option, none, some, ltb,
  arith, length, Bool-cases, Option-cases, inl, inr,
}
use mathlib.Core.List.{append-nil}
use goplusplus.Prelude.Bytes.{
  Bytes, take, drop, bytes_eq, bytes_eq_iff, index_byte, strip_prefix, take-append, drop-append,
}
use goplusplus.Router.Tree.{node, Nodes, node_static, Params, get_value, get_nth}
use goplusplus.Router.Tree.Prefix.{ltb_self, ltb-longer, strip_prefix-some, strip_prefix_self}

pub bytes_eq_self : (xs : Bytes) → bytes_eq xs xs ≡ true
bytes_eq_self xs = (bytes_eq_iff xs xs).1 refl

take-drop : (n : ℕ) (xs : Bytes) → take n xs ++ drop n xs ≡ xs
take-drop zero xs = refl
take-drop (suc n) [] = refl
take-drop (suc n) (x ∷ xs) = ap (◌∷◌ x) (take-drop n xs)

-- Where the node's path is no prefix, neither of the two comparisons holds.
take-differs :
    (p path : Bytes) → strip_prefix p path ≡ none → bytes_eq (take (length p) path) p ≡ false
take-differs p path absent = elim (Bool-cases (bytes_eq (take (length p) path) p)) [
  | inr other ↦ other
  | inl same ↦
      let split : p ++ drop (length p) path ≡ path =
        subst (λ t. t ++ drop (length p) path ≡ path)
          ((bytes_eq_iff (take (length p) path) p).0 same) (take-drop (length p) path) in
      let found =
        subst (λ q. strip_prefix p q ≡ some (drop (length p) path)) split
          (strip_prefix_self p (drop (length p) path)) in
      absurd (ground (arith, absent, found))
]

path-differs : (p path : Bytes) → strip_prefix p path ≡ none → bytes_eq path p ≡ false
path-differs p path absent = elim (Bool-cases (bytes_eq path p)) [
  | inr other ↦ other
  | inl same ↦
      let found =
        subst (λ q. strip_prefix p q ≡ some []) (append-nil p ∙ sym ((bytes_eq_iff path p).0 same))
          (strip_prefix_self p []) in
      absurd (ground (arith, absent, found))
]

module _ {ℓ} {H : Type ℓ} (u : Bytes → Option Bytes) (ps : Params) where
  -- The lookup, by what is left of the path after the node's own.
  abbrev pub descend : Bytes → Nodes H → Option H → Option Bytes → Option H × Params
  descend indices children h none = (none, ps)
  descend indices children h (some []) = (h, ps)
  descend indices children h (some (c ∷ rest)) = elim (index_byte indices c) [
    | none ↦ (none, ps)
    | some k ↦ get_nth u children k (c ∷ rest) ps
  ]

  get_value-append :
      (p indices : Bytes) (children : Nodes H) (h : Option H) (rest : Bytes)
      → get_value u (node p indices false node_static [] children h) (p ++ rest) ps
        ≡ descend indices children h (some rest)
  unfolding get_value
  get_value-append p indices children h [] =
      rw (append-nil p, ltb_self (length p), bytes_eq_self p, get_value) refl
  get_value-append p indices children h (c ∷ rest) = elim (Option-cases (index_byte indices c)) [
    | inl absent ↦
        rw
          (
            ltb-longer p c rest,
            get_value,
            take-append p (c ∷ rest),
            bytes_eq_self p,
            drop-append p (c ∷ rest),
            absent,
            descend,
          )
          refl
    | inr (k, present) ↦
        rw
          (
            ltb-longer p c rest,
            get_value,
            take-append p (c ∷ rest),
            bytes_eq_self p,
            drop-append p (c ∷ rest),
            present,
            descend,
          )
          (rw (drop-append p (c ∷ rest)) refl)
  ]

  get_value-absent :
      (p indices : Bytes) (children : Nodes H) (h : Option H) (path : Bytes)
      → strip_prefix p path ≡ none
      → get_value u (node p indices false node_static [] children h) path ps ≡ (none, ps)
  unfolding get_value
  get_value-absent p indices children h path absent =
      elim (Bool-cases (ltb (length p) (length path))) [
        | inl longer ↦ rw (longer, get_value, take-differs p path absent) refl
        | inr short ↦ rw (short, get_value, path-differs p path absent) refl
      ]

  pub get_value-descend :
      (p indices : Bytes) (children : Nodes H) (h : Option H) (path : Bytes)
      → get_value u (node p indices false node_static [] children h) path ps
        ≡ descend indices children h (strip_prefix p path)
  get_value-descend p indices children h path = elim (Option-cases (strip_prefix p path)) [
    | inr (rest, found) ↦ rw found (
        subst
          (λ q.
            get_value u (node p indices false node_static [] children h) q ps
            ≡ descend indices children h (some rest))
          (strip_prefix-some p path rest found) (get_value-append p indices children h rest))
    | inl absent ↦ rw absent (get_value-absent p indices children h path absent)
  ]
