-- ===== src/Router/Tree/Refine.antt =====
-- An insertion of a path without parameters, at one node: the lookup changes at that path only.
use goplusplus.Prelude.{
  ℕ, ◌≡◌, ◌≢◌, refl, sym, ap, subst, ◌∙◌, ◌<◌, false, [], ◌∷◌, ◌++◌, Option, none, some, ◌==◌,
  arith, length, Bool-cases, Option-cases, inl, inr,
}
use goplusplus.Prelude.Bytes.{Bytes, bytes_eq, index_byte, strip_prefix}
use goplusplus.Router.Tree.{
  Node, node, Nodes, nil, cons, node_static, count_nodes, snoc, Params, insert_nth, get_value,
}
use goplusplus.Router.Tree.Prefix.{Diverge, strip_prefix-append}
use goplusplus.Router.Tree.Place.{leaf, place}
use goplusplus.Router.Tree.Lookup.{descend, get_value-descend}
use goplusplus.Router.Tree.Index.{
  index_byte-lt, bytes_eq-append, index_byte-first, index_byte-only, index_byte-second,
  index_byte-neither,
}
use goplusplus.Router.Tree.Descend.{
  get_value-leaf, put, put-other, InsertsAt, descend-place_child, descend-place_new, descend-found,
  descend-missing,
}

strip_prefix-append_none :
    (pre ys q : Bytes) → strip_prefix pre q ≡ none → strip_prefix (pre ++ ys) q ≡ none
strip_prefix-append_none pre ys q absent = rw (strip_prefix-append pre ys q, absent) refl

strip_prefix-append_some :
    (pre ys q r : Bytes)
    → strip_prefix pre q ≡ some r
    → strip_prefix (pre ++ ys) q ≡ strip_prefix ys r
strip_prefix-append_some pre ys q r found = rw (strip_prefix-append pre ys q, found) refl

strip_prefix-other :
    (b c : ℕ) (ys r : Bytes) → (b == c) ≡ false → strip_prefix (b ∷ ys) (c ∷ r) ≡ none
unfolding strip_prefix
strip_prefix-other b c ys r other = ground arith

module _ {ℓ} {H : Type ℓ} (u : Bytes → Option Bytes) (ps : Params) where
  put-absent :
      (pre xs : Bytes) (handlers : H) (q : Bytes) (old : Option H × Params)
      → strip_prefix pre q ≡ none
      → put u ps (pre ++ xs) handlers q old ≡ old
  put-absent pre xs handlers q old absent = rw (bytes_eq-append pre xs q, absent) refl

  put-past :
      (pre xs : Bytes) (handlers : H) (q r : Bytes) (old : Option H × Params)
      → strip_prefix pre q ≡ some r
      → put u ps (pre ++ xs) handlers q old ≡ put u ps xs handlers r old
  put-past pre xs handlers q r old found = rw (bytes_eq-append pre xs q, found) refl

  -- Two nodes whose paths start alike are compared past the common prefix.
  node-put :
      (pre xs ys indices indices' : Bytes) (children children' : Nodes H) (h h' : Option H)
      (handlers : H)
      → ((r : Bytes)
          → descend u ps indices' children' h' (some r)
            ≡ put u ps xs handlers r (descend u ps indices children h (strip_prefix ys r)))
      → (q : Bytes)
      → get_value u (node pre indices' false node_static [] children' h') q ps
        ≡ put u ps
            (pre ++ xs)
            handlers
            q
            (get_value u (node (pre ++ ys) indices false node_static [] children h) q ps)
  node-put pre xs ys indices indices' children children' h h' handlers past q =
      get_value-descend u ps pre indices' children' h' q
      ∙ elim (Option-cases (strip_prefix pre q)) [
        | inl absent ↦
            ap (descend u ps indices' children' h') absent
            ∙ sym (put-absent pre xs handlers q (none, ps) absent)
            ∙ ap (put u ps (pre ++ xs) handlers q) (
                ap (descend u ps indices children h)
                  (sym (strip_prefix-append_none pre ys q absent)))
        | inr (r, found) ↦
            ap (descend u ps indices' children' h') found
            ∙ past r
            ∙ sym (
                put-past pre xs handlers q r (descend u ps indices children h (strip_prefix ys r))
                  found)
            ∙ ap (put u ps (pre ++ xs) handlers q) (
                ap (descend u ps indices children h)
                  (sym (strip_prefix-append_some pre ys q r found)))
      ]
      ∙ ap (put u ps (pre ++ xs) handlers q)
          (sym (get_value-descend u ps (pre ++ ys) indices children h q))

  -- The lookup in the children of a node that was split.
  module _ (b : ℕ) (ys indices : Bytes) (children : Nodes H) (h : Option H) (handlers : H) where
    abbrev lower : Node H
    lower = node (b ∷ ys) indices false node_static [] children h

    descend-split :
        (r : Bytes)
        → descend u ps (b ∷ []) (cons lower nil) (some handlers) (some r)
          ≡ put u ps [] handlers r (descend u ps indices children h (strip_prefix (b ∷ ys) r))
    unfolding bytes_eq strip_prefix get_value
    descend-split [] = refl
    descend-split (c ∷ r) = elim (Bool-cases (b == c)) [
      | inl same ↦
          descend-found u ps (b ∷ []) (cons lower nil) (some handlers) c r 0
            (index_byte-first b [] c same)
          ∙ get_value-descend u ps (b ∷ ys) indices children h (c ∷ r)
      | inr other ↦
          descend-missing u ps (b ∷ []) (cons lower nil) (some handlers) c r
            (index_byte-only b c other)
          ∙ ap (descend u ps indices children h) (sym (strip_prefix-other b c ys r other))
    ]

    descend-branch :
        (a : ℕ) (xs r : Bytes)
        → a ≢ b
        → descend u ps (b ∷ a ∷ []) (cons lower (cons (leaf (a ∷ xs) handlers) nil)) none (some r)
          ≡ put u ps (a ∷ xs) handlers r (descend u ps indices children h (strip_prefix (b ∷ ys) r))
    unfolding bytes_eq strip_prefix get_value
    descend-branch a xs [] d = refl
    descend-branch a xs (c ∷ r) d =
        let both = cons lower (cons (leaf (a ∷ xs) handlers) nil) in
        let old : Option Bytes → Option H × Params = descend u ps indices children h in
        elim (Bool-cases (b == c)) [
          | inl same ↦
              descend-found u ps (b ∷ a ∷ []) both none c r 0 (index_byte-first b (a ∷ []) c same)
              ∙ get_value-descend u ps (b ∷ ys) indices children h (c ∷ r)
              ∙ sym (
                  put-other u ps a xs handlers c r (old (strip_prefix (b ∷ ys) (c ∷ r)))
                    (ground (arith, d, same)))
          | inr other ↦ elim (Bool-cases (a == c)) [
            | inl at_a ↦
                descend-found u ps (b ∷ a ∷ []) both none c r 1 (index_byte-second b a c other at_a)
                ∙ get_value-leaf u ps (a ∷ xs) (c ∷ r) handlers
                ∙ ap (put u ps (a ∷ xs) handlers (c ∷ r))
                    (ap old (sym (strip_prefix-other b c ys r other)))
            | inr third ↦
                descend-missing u ps (b ∷ a ∷ []) both none c r
                  (index_byte-neither b a c other third)
                ∙ sym (put-other u ps a xs handlers c r (none, ps) third)
                ∙ ap (put u ps (a ∷ xs) handlers (c ∷ r))
                    (ap old (sym (strip_prefix-other b c ys r other)))
          ]
        ]

  -- The lookup below the node that the insertion makes, by the part of the path past the prefix.
  abbrev pub InsertsAll : Nodes H → Bytes → H → Type ℓ
  InsertsAll children path handlers =
      (k : ℕ) → k < count_nodes children → InsertsAt u ps children k path handlers

  set_handlers-descend :
      (indices : Bytes) (children : Nodes H) (h : Option H) (handlers : H) (r : Bytes)
      → descend u ps indices children (some handlers) (some r)
        ≡ put u ps [] handlers r (descend u ps indices children h (some r))
  unfolding bytes_eq
  set_handlers-descend indices children h handlers [] = refl
  set_handlers-descend indices children h handlers (c ∷ r) = refl

  pub place-put :
      (pre xs ys indices : Bytes) (children : Nodes H) (h : Option H) (handlers : H) (q : Bytes)
      → Diverge xs ys
      → length indices ≡ count_nodes children
      → InsertsAll children xs handlers
      → get_value u (place pre xs ys indices children h handlers) q ps
        ≡ put u ps
            (pre ++ xs)
            handlers
            q
            (get_value u (node (pre ++ ys) indices false node_static [] children h) q ps)
  unfolding bytes_eq strip_prefix
  place-put pre [] [] indices children h handlers q d count inserts =
      node-put pre [] [] indices indices children children h (some handlers) handlers
        (set_handlers-descend indices children h handlers) q
  place-put pre [] (b ∷ ys) indices children h handlers q d count inserts =
      node-put pre [] (b ∷ ys) indices (b ∷ []) children
        (cons (lower b ys indices children h handlers) nil) h (some handlers) handlers
        (descend-split b ys indices children h handlers) q
  place-put pre (a ∷ xs) (b ∷ ys) indices children h handlers q d count inserts =
      node-put pre (a ∷ xs) (b ∷ ys) indices (b ∷ a ∷ []) children
        (cons (lower b ys indices children h handlers) (cons (leaf (a ∷ xs) handlers) nil)) h none
        handlers (λ r. descend-branch b ys indices children h handlers a xs r d) q
  place-put pre (a ∷ xs) [] indices children h handlers q d count inserts =
      elim (Option-cases (index_byte indices a)) [
        | inl absent ↦
            rw (place, absent)
              (node-put pre (a ∷ xs) [] indices (indices ++ a ∷ []) children
                (snoc children (leaf (a ∷ xs) handlers)) h h handlers
                (λ r. descend-place_new u ps a xs indices children h handlers r count absent) q)
        | inr (k, present) ↦
            rw (place, present)
              (node-put pre (a ∷ xs) [] indices indices children
                (insert_nth children k (a ∷ xs) handlers) h h handlers
                (λ r.
                  descend-place_child u ps a xs indices children h handlers k r present
                    (inserts k (subst (λ n. k < n) count (index_byte-lt indices a k present))))
                q)
      ]
