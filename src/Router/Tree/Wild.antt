-- ===== src/Router/Tree/Wild.antt =====
-- The trees of a route with a parameter, and of one beside a static route.
use goplusplus.Prelude.{
  ℕ, suc, ◌≡◌, ◌≢◌, refl, sym, subst, true, false, [], ◌∷◌, ◌++◌, Option, none, some, arith, length,
}
use goplusplus.Prelude.Bytes.{Bytes, index_byte}
use goplusplus.Router.Tree.{
  Node, node, Nodes, nil, cons, node_static, node_param, empty_node, insert_child, add_route,
}
use goplusplus.Router.Tree.Prefix.{HasNoWild, HasNoWild-append}
use goplusplus.Router.Tree.Place.{leaf}
use goplusplus.Router.Tree.{
  static_node, add_child, wild_node, split_node, next_child, longest_common_prefix, is_wild,
  index_wild, node_param,
}
use goplusplus.Prelude.Bytes.{take-append, drop-append}
use goplusplus.Router.Tree.Place.{static_node-leaf}
use goplusplus.Router.Tree.Prefix.{ltb-longer}
use goplusplus.Router.Tree.Prefix.{HasNoWild-head, longest_common_prefix-append, get_or-append}

index_wild-append :
    (pre : Bytes) (w : ℕ) (ys : Bytes)
    → HasNoWild pre
    → is_wild w ≡ true
    → index_wild (pre ++ w ∷ ys) ≡ some (length pre)
unfolding index_wild
index_wild-append [] w ys plain wild = rw wild refl
index_wild-append (x ∷ pre) w ys plain wild =
    ground (arith, index_wild-append pre w ys (HasNoWild-append (x ∷ []) pre plain) wild)

index_byte-colon : (xs : Bytes) → index_byte xs b'/' ≡ none → index_byte (b':' ∷ xs) b'/' ≡ none
unfolding index_byte
index_byte-colon xs absent = ground (arith, absent)

module _ {ℓ} {H : Type ℓ} where
  -- The first route of a tree.
  add_route-first :
      (c : ℕ) (path : Bytes) (handlers : H)
      → is_wild c ≡ false
      → add_route empty_node (c ∷ path) handlers
        ≡ node []
            (c ∷ [])
            false
            node_static
            []
            (cons (static_node (wild_node (suc (length path))) (c ∷ path) handlers) nil)
            none
  unfolding insert_child longest_common_prefix next_child add_child index_byte
  add_route-first c path handlers plain = ground (arith, plain)

  -- Further routes with the first byte of the first one go below its node.
  pub insert_child-root :
      (c : ℕ) (n : Node H) (path : Bytes) (handlers : H)
      → add_route (node [] (c ∷ []) false node_static [] (cons n nil) none) (c ∷ path) handlers
        ≡ node [] (c ∷ []) false node_static [] (cons (insert_child n (c ∷ path) handlers) nil) none
  unfolding insert_child longest_common_prefix next_child index_byte
  insert_child-root c n path handlers = ground arith

  -- A parameter that comes where the one child is static.
  insert_child-beside :
      (pre : Bytes) (a : ℕ) (xs : Bytes) (w : ℕ) (ys indices : Bytes) (children : Nodes H)
      (h : Option H) (handlers : H)
      → is_wild w ≡ true
      → a ≢ w
      → insert_child
          (node (pre ++ a ∷ xs) indices false node_static [] children h)
          (pre ++ w ∷ ys)
          handlers
        ≡ node pre
            (a ∷ [])
            true
            node_static
            []
            (cons
              (node (a ∷ xs) indices false node_static [] children h)
              (cons (wild_node (length (pre ++ w ∷ ys)) (w ∷ ys) handlers) nil))
            none
  unfolding insert_child split_node add_child
  insert_child-beside pre a xs w ys indices children h handlers wild d =
      rw
        (
          longest_common_prefix-append pre (w ∷ ys) (a ∷ xs) (λ e. d (sym e)),
          ltb-longer pre a xs,
          ltb-longer pre w ys,
          take-append pre (w ∷ ys),
          drop-append pre (w ∷ ys),
          get_or-append pre (a ∷ xs) 0,
          drop-append pre (a ∷ xs),
          wild,
        )
        refl

  pub conflict-tree :
      (c : ℕ) (pre : Bytes) (a : ℕ) (xs : Bytes) (w : ℕ) (ys : Bytes) (h h' : H)
      → HasNoWild (c ∷ pre ++ a ∷ xs)
      → is_wild w ≡ true
      → add_route (add_route empty_node (c ∷ pre ++ a ∷ xs) h) (c ∷ pre ++ w ∷ ys) h'
        ≡ node []
            (c ∷ [])
            false
            node_static
            []
            (cons
              (node
                (c ∷ pre)
                (a ∷ [])
                true
                node_static
                []
                (cons
                  (leaf (a ∷ xs) h)
                  (cons (wild_node (length (c ∷ pre ++ w ∷ ys)) (w ∷ ys) h') nil))
                none)
              nil)
            none
  conflict-tree c pre a xs w ys h h' plain wild =
      let plain_a = HasNoWild-head a xs (HasNoWild-append (c ∷ pre) (a ∷ xs) plain) in
      let apart : a ≢ w = λ e. ground (arith, subst (λ t. is_wild t ≡ false) e plain_a, wild) in
      rw
        (
          add_route-first c (pre ++ a ∷ xs) h (HasNoWild-head c (pre ++ a ∷ xs) plain),
          static_node-leaf (wild_node (suc (length (pre ++ a ∷ xs)))) (c ∷ pre ++ a ∷ xs) h plain,
          insert_child-root c (leaf (c ∷ pre ++ a ∷ xs) h) (pre ++ w ∷ ys) h',
          insert_child-beside (c ∷ pre) a xs w ys [] nil (some h) h' wild apart,
        )
        refl

  param_node :
      (x : ℕ) (name : Bytes) (fuel : ℕ) (h : H)
      → index_byte (x ∷ name) b'/' ≡ none
      → wild_node (suc fuel) (b':' ∷ x ∷ name) h
        ≡ node (b':' ∷ x ∷ name) [] false node_param (x ∷ name) nil (some h)
  unfolding wild_node
  param_node x name fuel h absent = rw (index_byte-colon (x ∷ name) absent, wild_node) refl

  pub capture-tree :
      (c : ℕ) (pre : Bytes) (x : ℕ) (name : Bytes) (h : H)
      → HasNoWild (c ∷ pre)
      → index_byte (x ∷ name) b'/' ≡ none
      → add_route empty_node (c ∷ pre ++ b':' ∷ x ∷ name) h
        ≡ node []
            (c ∷ [])
            false
            node_static
            []
            (cons
              (node
                (c ∷ pre)
                []
                true
                node_static
                []
                (cons (node (b':' ∷ x ∷ name) [] false node_param (x ∷ name) nil (some h)) nil)
                none)
              nil)
            none
  unfolding static_node
  capture-tree c pre x name h plain in_name =
      rw
        (
          add_route-first c (pre ++ b':' ∷ x ∷ name) h (HasNoWild-head c pre plain),
          static_node,
          index_wild-append (c ∷ pre) b':' (x ∷ name) plain refl,
          take-append (c ∷ pre) (b':' ∷ x ∷ name),
          drop-append (c ∷ pre) (b':' ∷ x ∷ name),
          param_node x name (length (pre ++ b':' ∷ x ∷ name)) h in_name,
        )
        refl
