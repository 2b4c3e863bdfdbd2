-- ===== src/Router/Tree/Place.antt =====
-- Where an insertion of a path without parameters puts its handlers.
use mathlib.Core.List.{append-nil}
use goplusplus.Prelude.{
  ℕ, ◌≡◌, refl, Bool, false, [], ◌∷◌, ◌++◌, Option, none, some, length, Option-cases, inl, inr,
}
use goplusplus.Prelude.Bytes.{Bytes, index_byte, take-append, drop-append}
use goplusplus.Router.Tree.{
  Node, node, Nodes, nil, cons, NodeType, node_static, snoc, static_node, add_child, wild_node,
  next_child, split_node, insert_child, insert_nth,
}
use goplusplus.Router.Tree.Prefix.{
  ltb_self, ltb-longer, Diverge, longest_common_prefix-append, get_or-append, HasNoWild,
  HasNoWild-head,
}

module _ {ℓ} {H : Type ℓ} where
  abbrev pub leaf : Bytes → H → Node H
  leaf path handlers = node path [] false node_static [] nil (some handlers)

  pub static_node-leaf :
      (wild : Bytes → H → Node H) (path : Bytes) (handlers : H)
      → HasNoWild path
      → static_node wild path handlers ≡ leaf path handlers
  unfolding static_node
  static_node-leaf wild path handlers plain = rw (plain, static_node) refl

  pub add_child-static :
      (wild : Bytes → H → Node H) (p indices : Bytes) (w : Bool) (n_type : NodeType) (name : Bytes)
      (children : Nodes H) (h : Option H) (c : ℕ) (path : Bytes) (handlers : H)
      → HasNoWild (c ∷ path)
      → add_child wild (node p indices w n_type name children h) (c ∷ path) handlers
        ≡ node p (indices ++ c ∷ []) w n_type name (snoc children (leaf (c ∷ path) handlers)) h
  unfolding add_child
  add_child-static wild p indices w n_type name children h c path handlers plain =
      rw (HasNoWild-head c path plain, add_child, static_node-leaf wild (c ∷ path) handlers plain)
        refl

  -- The insertion, by what follows the common prefix in the path and in the node's own path.
  abbrev pub place : Bytes → Bytes → Bytes → Bytes → Nodes H → Option H → H → Node H
  place pre [] [] indices children h handlers =
      node pre indices false node_static [] children (some handlers)
  place pre [] (b ∷ ys) indices children h handlers =
      node pre (b ∷ []) false node_static []
        (cons (node (b ∷ ys) indices false node_static [] children h) nil) (some handlers)
  place pre (a ∷ xs) (b ∷ ys) indices children h handlers =
      node pre (b ∷ a ∷ []) false node_static []
        (cons (node (b ∷ ys) indices false node_static [] children h)
          (cons (leaf (a ∷ xs) handlers) nil))
        none
  place pre (a ∷ xs) [] indices children h handlers = elim (index_byte indices a) [
    | none ↦
        node pre (indices ++ a ∷ []) false node_static [] (snoc children (leaf (a ∷ xs) handlers)) h
    | some k ↦ node pre indices false node_static [] (insert_nth children k (a ∷ xs) handlers) h
  ]

  pub insert_child-place :
      (pre xs ys indices : Bytes) (children : Nodes H) (h : Option H) (handlers : H)
      → Diverge xs ys
      → HasNoWild xs
      → insert_child (node (pre ++ ys) indices false node_static [] children h) (pre ++ xs) handlers
        ≡ place pre xs ys indices children h handlers
  unfolding insert_child split_node next_child
  insert_child-place pre [] [] indices children h handlers d plain =
      rw (longest_common_prefix-append pre [] [] tt, append-nil pre, ltb_self (length pre)) refl
  insert_child-place pre [] (b ∷ ys) indices children h handlers d plain =
      rw
        (
          longest_common_prefix-append pre [] (b ∷ ys) tt,
          ltb-longer pre b ys,
          take-append pre [],
          append-nil pre,
          ltb_self (length pre),
          get_or-append pre (b ∷ ys) 0,
          drop-append pre (b ∷ ys),
        )
        refl
  insert_child-place pre (a ∷ xs) (b ∷ ys) indices children h handlers d plain =
      rw
        (
          longest_common_prefix-append pre (a ∷ xs) (b ∷ ys) d,
          ltb-longer pre b ys,
          ltb-longer pre a xs,
          take-append pre (a ∷ xs),
          drop-append pre (a ∷ xs),
          get_or-append pre (b ∷ ys) 0,
          drop-append pre (b ∷ ys),
        )
        (add_child-static (wild_node (length (pre ++ a ∷ xs))) pre (b ∷ []) false node_static []
          (cons (node (b ∷ ys) indices false node_static [] children h) nil) none a xs handlers
          plain)
  insert_child-place pre (a ∷ xs) [] indices children h handlers d plain =
      elim (Option-cases (index_byte indices a)) [
        | inl absent ↦
            rw
              (
                longest_common_prefix-append pre (a ∷ xs) [] tt,
                append-nil pre,
                ltb_self (length pre),
                ltb-longer pre a xs,
                drop-append pre (a ∷ xs),
                absent,
                place,
              )
              (rw
                (
                  longest_common_prefix-append pre (a ∷ xs) [] tt,
                  append-nil pre,
                  drop-append pre (a ∷ xs),
                )
                (add_child-static (wild_node (length (pre ++ a ∷ xs))) pre indices false node_static
                  [] children h a xs handlers plain))
        | inr (k, present) ↦
            rw
              (
                longest_common_prefix-append pre (a ∷ xs) [] tt,
                append-nil pre,
                ltb_self (length pre),
                ltb-longer pre a xs,
                drop-append pre (a ∷ xs),
                present,
                place,
              )
              (rw
                (
                  longest_common_prefix-append pre (a ∷ xs) [] tt,
                  append-nil pre,
                  drop-append pre (a ∷ xs),
                )
                refl)
      ]
