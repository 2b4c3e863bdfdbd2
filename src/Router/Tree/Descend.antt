-- ===== src/Router/Tree/Descend.antt =====
-- What an insertion below a node changes in the lookup, past the common prefix.
use goplusplus.Prelude.{
  ℕ, zero, suc, ◌≡◌, refl, sym, ap, subst, ◌∙◌, ◌<◌, false, [], ◌∷◌, ◌++◌, Option, none, some,
  if◌then◌else◌, ◌==◌, arith, length, Bool-cases, Option-cases, inl, inr,
}
use goplusplus.Prelude.Bytes.{Bytes, bytes_eq, index_byte, strip_prefix}
use goplusplus.Router.Tree.{
  Node, Nodes, nil, cons, count_nodes, snoc, Params, insert_nth, get_value, get_nth,
}
use goplusplus.Router.Tree.Place.{leaf}
use goplusplus.Router.Tree.Lookup.{descend, get_value-descend}
use goplusplus.Router.Tree.Index.{
  index_byte-lt, index_byte-snoc_at, index_byte-snoc_other, index_byte-apart, bytes_eq-strip,
}

module _ {ℓ} {H : Type ℓ} (u : Bytes → Option Bytes) (ps : Params) where
  get_nth-snoc :
      (children : Nodes H) (n : Node H) (path : Bytes)
      → get_nth u (snoc children n) (count_nodes children) path ps ≡ get_value u n path ps
  unfolding get_value
  get_nth-snoc nil n path = refl
  get_nth-snoc (cons m ms) n path = get_nth-snoc ms n path

  get_nth-snoc_lt :
      (children : Nodes H) (n : Node H) (k : ℕ) (path : Bytes)
      → k < count_nodes children
      → get_nth u (snoc children n) k path ps ≡ get_nth u children k path ps
  unfolding get_value
  get_nth-snoc_lt nil n k path h = absurd (omega arith)
  get_nth-snoc_lt (cons m ms) n zero path h = refl
  get_nth-snoc_lt (cons m ms) n (suc k) path h = get_nth-snoc_lt ms n k path (omega arith)

  pub get_value-leaf :
      (xs q : Bytes) (handlers : H)
      → get_value u (leaf xs handlers) q ps
        ≡ (if bytes_eq q xs then (some handlers, ps) else (none, ps))
  unfolding bytes_eq index_byte
  get_value-leaf xs q handlers =
      get_value-descend u ps xs [] nil (some handlers) q ∙ elim (Option-cases (strip_prefix xs q)) [
        | inl absent ↦ rw (bytes_eq-strip xs q, absent) refl
        | inr ([], found) ↦ rw (bytes_eq-strip xs q, found) (ground arith)
        | inr (c ∷ r, found) ↦ rw (bytes_eq-strip xs q, found) refl
      ]

  -- What the lookup of the other paths was is as it was.
  abbrev pub put : Bytes → H → Bytes → Option H × Params → Option H × Params
  put path handlers q old = if bytes_eq q path then (some handlers, ps) else old

  -- An insertion into one child changes the lookup in that child only.
  abbrev pub InsertsAt : Nodes H → ℕ → Bytes → H → Type ℓ
  InsertsAt children k path handlers =
      (j : ℕ) (q : Bytes)
      → get_nth u (insert_nth children k path handlers) j q ps ≡ (
          if j == k
          then put path handlers q (get_nth u children j q ps)
          else get_nth u children j q ps)

  pub put-other :
      (a : ℕ) (xs : Bytes) (handlers : H) (c : ℕ) (r : Bytes) (old : Option H × Params)
      → (a == c) ≡ false
      → put (a ∷ xs) handlers (c ∷ r) old ≡ old
  unfolding bytes_eq
  put-other a xs handlers c r old other = ground arith

  -- The child at the index of the path's first byte is the one that the insertion is in.
  put-child :
      (indices : Bytes) (a : ℕ) (xs : Bytes) (handlers : H) (c j k : ℕ) (r : Bytes)
      (old : Option H × Params)
      → index_byte indices a ≡ some k
      → index_byte indices c ≡ some j
      → (if j == k then put (a ∷ xs) handlers (c ∷ r) old else old)
        ≡ put (a ∷ xs) handlers (c ∷ r) old
  put-child indices a xs handlers c j k r old at_a at_c = elim (Bool-cases (j == k)) [
    | inl same ↦ rw same refl
    | inr other ↦ rw other (
        sym (
          put-other a xs handlers c r old
            (index_byte-apart indices a c (ground (arith, at_a, at_c)))))
  ]

  module _ (indices : Bytes) (children : Nodes H) (h : Option H) (c : ℕ) (r : Bytes) where
    pub descend-missing :
        index_byte indices c ≡ none → descend u ps indices children h (some (c ∷ r)) ≡ (none, ps)
    descend-missing absent = rw (descend, absent) refl

    pub descend-found :
        (k : ℕ)
        → index_byte indices c ≡ some k
        → descend u ps indices children h (some (c ∷ r)) ≡ get_nth u children k (c ∷ r) ps
    descend-found k present = rw (descend, present) refl

  -- The lookup after an insertion, past the common prefix.
  module _ (a : ℕ) (xs indices : Bytes) (children : Nodes H) (h : Option H) (handlers : H) where
    pub descend-place_child :
        (k : ℕ) (r : Bytes)
        → index_byte indices a ≡ some k
        → InsertsAt children k (a ∷ xs) handlers
        → descend u ps indices (insert_nth children k (a ∷ xs) handlers) h (some r)
          ≡ put (a ∷ xs) handlers r (descend u ps indices children h (some r))
    unfolding bytes_eq
    descend-place_child k [] at_a inserts = refl
    descend-place_child k (c ∷ r) at_a inserts = elim (Option-cases (index_byte indices c)) [
      | inl absent ↦
          descend-missing indices (insert_nth children k (a ∷ xs) handlers) h c r absent
          ∙ sym (
              put-other a xs handlers c r (none, ps)
                (index_byte-apart indices a c (ground (arith, at_a, absent))))
          ∙ ap (put (a ∷ xs) handlers (c ∷ r)) (sym (descend-missing indices children h c r absent))
      | inr (j, present) ↦
          descend-found indices (insert_nth children k (a ∷ xs) handlers) h c r j present
          ∙ inserts j (c ∷ r)
          ∙ put-child indices a xs handlers c j k r (get_nth u children j (c ∷ r) ps) at_a present
          ∙ ap (put (a ∷ xs) handlers (c ∷ r))
              (sym (descend-found indices children h c r j present))
    ]

    pub descend-place_new :
        (r : Bytes)
        → length indices ≡ count_nodes children
        → index_byte indices a ≡ none
        → descend u ps (indices ++ a ∷ []) (snoc children (leaf (a ∷ xs) handlers)) h (some r)
          ≡ put (a ∷ xs) handlers r (descend u ps indices children h (some r))
    unfolding bytes_eq
    descend-place_new [] count absent = refl
    descend-place_new (c ∷ r) count absent = elim (Bool-cases (a == c)) [
      | inl same ↦
          descend-found (indices ++ a ∷ []) (snoc children (leaf (a ∷ xs) handlers)) h c r
            (count_nodes children) (index_byte-snoc_at indices a c absent same ∙ ap some count)
          ∙ get_nth-snoc children (leaf (a ∷ xs) handlers) (c ∷ r)
          ∙ get_value-leaf (a ∷ xs) (c ∷ r) handlers
          ∙ ap (put (a ∷ xs) handlers (c ∷ r))
              (sym (descend-missing indices children h c r (ground (arith, same, absent))))
      | inr other ↦ elim (Option-cases (index_byte indices c)) [
        | inl none_c ↦
            descend-missing (indices ++ a ∷ []) (snoc children (leaf (a ∷ xs) handlers)) h c r
              (index_byte-snoc_other indices a c absent other ∙ none_c)
            ∙ sym (put-other a xs handlers c r (none, ps) other)
            ∙ ap (put (a ∷ xs) handlers (c ∷ r))
                (sym (descend-missing indices children h c r none_c))
        | inr (j, present) ↦
            descend-found (indices ++ a ∷ []) (snoc children (leaf (a ∷ xs) handlers)) h c r j
              (index_byte-snoc_other indices a c absent other ∙ present)
            ∙ get_nth-snoc_lt children (leaf (a ∷ xs) handlers) j (c ∷ r)
                (subst (λ n. j < n) count (index_byte-lt indices c j present))
            ∙ sym (put-other a xs handlers c r (get_nth u children j (c ∷ r) ps) other)
            ∙ ap (put (a ∷ xs) handlers (c ∷ r))
                (sym (descend-found indices children h c r j present))
      ]
    ]
