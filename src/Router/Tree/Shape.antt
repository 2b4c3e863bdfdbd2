-- ===== src/Router/Tree/Shape.antt =====
-- An insertion of a path without parameters keeps a tree of static nodes.
use goplusplus.Prelude.{
  ℕ, zero, suc, ◌≡◌, refl, sym, ap, subst, ◌∙◌, true, false, [], ◌∷◌, ◌++◌, Option, arith, length,
  length-append, Option-cases, inl, inr,
}
use goplusplus.Prelude.Bytes.{Bytes, index_byte}
use goplusplus.Router.Tree.{
  Node, node, Nodes, nil, cons, node_static, node_param, node_catch_all, count_nodes, snoc,
  insert_child, insert_nth,
}
use goplusplus.Router.Tree.Prefix.{CommonPrefix, common_prefix, HasNoWild, HasNoWild-append}
use goplusplus.Router.Tree.Place.{leaf, place, insert_child-place}

-- No parameter in the tree, and a child for each index.
unfoldable mutual
  pub IsStatic {ℓ} : {H : Type ℓ} → Node H → Type 0
  IsStatic (node p indices true n_type name children h) = ⊥
  IsStatic (node p indices false node_param name children h) = ⊥
  IsStatic (node p indices false node_catch_all name children h) = ⊥
  IsStatic (node p indices false node_static (c ∷ name) children h) = ⊥
  IsStatic (node p indices false node_static [] children h) =
      (length indices ≡ count_nodes children) × AllStatic children

  pub AllStatic {ℓ} : {H : Type ℓ} → Nodes H → Type 0
  AllStatic nil = Unit
  AllStatic (cons n ns) = IsStatic n × AllStatic ns

count_nodes-insert_nth {ℓ} :
    {H : Type ℓ} (children : Nodes H) (k : ℕ) (path : Bytes) (handlers : H)
    → count_nodes (insert_nth children k path handlers) ≡ count_nodes children
unfolding insert_child
count_nodes-insert_nth nil k path handlers = refl
count_nodes-insert_nth (cons n ns) zero path handlers = refl
count_nodes-insert_nth (cons n ns) (suc k) path handlers =
    ap suc (count_nodes-insert_nth ns k path handlers)

count_nodes-snoc {ℓ} :
    {H : Type ℓ} (children : Nodes H) (n : Node H)
    → count_nodes (snoc children n) ≡ suc (count_nodes children)
count_nodes-snoc nil n = refl
count_nodes-snoc (cons m ms) n = ap suc (count_nodes-snoc ms n)

AllStatic-snoc {ℓ} :
    {H : Type ℓ} (children : Nodes H) (n : Node H)
    → AllStatic children
    → IsStatic n
    → AllStatic (snoc children n)
unfolding IsStatic
AllStatic-snoc nil n all stat = (stat, tt)
AllStatic-snoc (cons m ms) n all stat = (all.0, AllStatic-snoc ms n all.1 stat)

place-IsStatic {ℓ} :
    {H : Type ℓ} (pre xs ys indices : Bytes) (children : Nodes H) (h : Option H) (handlers : H)
    → length indices ≡ count_nodes children
    → AllStatic children
    → ((k : ℕ) → AllStatic (insert_nth children k xs handlers))
    → IsStatic (place pre xs ys indices children h handlers)
unfolding IsStatic
place-IsStatic pre [] [] indices children h handlers count all inserted = (count, all)
place-IsStatic pre [] (b ∷ ys) indices children h handlers count all inserted =
    (refl, ((count, all), tt))
place-IsStatic pre (a ∷ xs) (b ∷ ys) indices children h handlers count all inserted =
    (refl, ((count, all), ((refl, tt), tt)))
place-IsStatic pre (a ∷ xs) [] indices children h handlers count all inserted =
    elim (Option-cases (index_byte indices a)) [
      | inl absent ↦
          rw (place, absent)
            (
              length-append indices (a ∷ [])
                  ∙ ground (arith, count, count_nodes-snoc children (leaf (a ∷ xs) handlers)),
              AllStatic-snoc children (leaf (a ∷ xs) handlers) all (refl, tt),
            )
      | inr (k, present) ↦
          rw (place, present)
            (count ∙ sym (count_nodes-insert_nth children k (a ∷ xs) handlers), inserted k)
    ]

insert_child-IsStatic_at {ℓ} :
    {H : Type ℓ} (p path indices : Bytes) (children : Nodes H) (h : Option H) (handlers : H)
    → CommonPrefix path p
    → length indices ≡ count_nodes children
    → AllStatic children
    → HasNoWild path
    → ((rest : Bytes) → HasNoWild rest → (k : ℕ) → AllStatic (insert_nth children k rest handlers))
    → IsStatic (insert_child (node p indices false node_static [] children h) path handlers)
insert_child-IsStatic_at p path indices children h handlers v count all plain inserted =
    let plain_left = HasNoWild-append v.common v.left (subst HasNoWild (sym v.left_eq) plain) in
    subst
      (λ t. IsStatic (insert_child (node t indices false node_static [] children h) path handlers))
      v.right_eq
      (subst
        (λ t. IsStatic (
          insert_child (node (v.common ++ v.right) indices false node_static [] children h) t
            handlers))
        v.left_eq
        (rw
          (insert_child-place v.common v.left v.right indices children h handlers v.diverge
            plain_left)
          (place-IsStatic v.common v.left v.right indices children h handlers count all
            (inserted v.left plain_left))))

mutual
  unfolding IsStatic insert_child

  pub insert_child-IsStatic {ℓ} :
      {H : Type ℓ} (n : Node H) (path : Bytes) (handlers : H)
      → IsStatic n
      → HasNoWild path
      → IsStatic (insert_child n path handlers)
  insert_child-IsStatic (node p indices false node_static [] children h) path handlers (count, all)
        plain =
      insert_child-IsStatic_at p path indices children h handlers (common_prefix path p) count all
        plain (λ rest plain_rest k. insert_nth-AllStatic children k rest handlers all plain_rest)
  insert_child-IsStatic (node p indices true n_type name children h) path handlers stat plain =
      absurd stat
  insert_child-IsStatic (node p indices false node_param name children h) path handlers stat plain =
      absurd stat
  insert_child-IsStatic (node p indices false node_catch_all name children h) path handlers stat
        plain =
      absurd stat
  insert_child-IsStatic (node p indices false node_static (c ∷ name) children h) path handlers stat
        plain =
      absurd stat

  insert_nth-AllStatic {ℓ} :
      {H : Type ℓ} (children : Nodes H) (k : ℕ) (path : Bytes) (handlers : H)
      → AllStatic children
      → HasNoWild path
      → AllStatic (insert_nth children k path handlers)
  insert_nth-AllStatic nil k path handlers all plain = tt
  insert_nth-AllStatic (cons n ns) zero path handlers all plain =
      (insert_child-IsStatic n path handlers all.0 plain, all.1)
  insert_nth-AllStatic (cons n ns) (suc k) path handlers all plain =
      (all.0, insert_nth-AllStatic ns k path handlers all.1 plain)
