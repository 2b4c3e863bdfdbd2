-- ===== src/Router/Tree/Capture.antt =====
-- Lookups with a parameter: what it captures, and a parameter beside a static path.
use goplusplus.Prelude.{
  ℕ, ◌≡◌, refl, sym, subst, ◌∙◌, Bool, true, false, [], ◌∷◌, ◌++◌, Option, none, some, ◌==◌, ==_iff,
  arith, length, Bool-cases, inl, inr,
}
use goplusplus.Prelude.Bytes.{Bytes, bytes_eq, index_byte, strip_prefix}
use goplusplus.Router.Tree.{
  Node, node, Nodes, nil, cons, NodeType, node_static, node_param, Params, empty_node, add_route,
  get_value,
}
use goplusplus.Router.Tree.Prefix.{HasNoWild}
use goplusplus.Router.Tree.Place.{leaf}
use goplusplus.Router.Tree.Lookup.{get_value-descend}
use goplusplus.Router.Tree.{wild_node, is_wild, unescaped, segment, node_param, get_wild}
use goplusplus.Prelude.Bytes.{take-append, drop-append}
use goplusplus.Router.Tree.Descend.{descend-found, descend-missing}
use goplusplus.Router.Tree.Index.{index_byte-first, index_byte-only}
use goplusplus.Router.Tree.Lookup.{bytes_eq_self}
use goplusplus.Router.Tree.Prefix.{ltb-longer}
use goplusplus.Router.Tree.Wild.{conflict-tree, capture-tree}

module _ {ℓ} {H : Type ℓ} where
  module _ (u : Bytes → Option Bytes) (ps : Params) where
    get_value-root :
        (c : ℕ) (n : Node H) (q : Bytes)
        → get_value u (node [] (c ∷ []) false node_static [] (cons n nil) none) (c ∷ q) ps
          ≡ get_value u n (c ∷ q) ps
    unfolding strip_prefix get_value
    get_value-root c n q =
        get_value-descend u ps [] (c ∷ []) (cons n nil) none (c ∷ q)
        ∙ descend-found u ps (c ∷ []) (cons n nil) none c q 0
            (index_byte-first c [] c (ground arith))

    -- A node with a parameter, whose first child is static, answers nothing.
    get_value-beside :
        (p indices : Bytes) (n_type : NodeType) (name : Bytes) (p' indices' : Bytes) (w : Bool)
        (name' : Bytes) (children siblings : Nodes H) (h : Option H) (q : Bytes)
        → get_value u
            (node p indices true n_type name
              (cons (node p' indices' w node_static name' children h) siblings)
              none)
            q
            ps
          ≡ (none, ps)
    unfolding get_value
    get_value-beside p indices n_type name p' indices' w name' children siblings h q = ground arith

    get_value-wild :
        (p : Bytes) (children : Nodes H) (d : ℕ) (v : Bytes)
        → get_value u (node p [] true node_static [] children none) (p ++ d ∷ v) ps
          ≡ get_wild u children (d ∷ v) ps
    unfolding get_value
    get_value-wild p children d v =
        rw
          (
            ltb-longer p d v,
            get_value,
            take-append p (d ∷ v),
            bytes_eq_self p,
            drop-append p (d ∷ v),
          )
          refl

    get_value-root_other :
        (c : ℕ) (n : Node H) (d : ℕ) (q : Bytes)
        → (c == d) ≡ false
        → get_value u (node [] (c ∷ []) false node_static [] (cons n nil) none) (d ∷ q) ps
          ≡ (none, ps)
    unfolding strip_prefix
    get_value-root_other c n d q other =
        get_value-descend u ps [] (c ∷ []) (cons n nil) none (d ∷ q)
        ∙ descend-missing u ps (c ∷ []) (cons n nil) none d q (index_byte-only c d other)

    get_value-root_none :
        (c : ℕ) (n : Node H)
        → ((q : Bytes) → get_value u n q ps ≡ (none, ps))
        → (q : Bytes)
        → get_value u (node [] (c ∷ []) false node_static [] (cons n nil) none) q ps ≡ (none, ps)
    unfolding get_value bytes_eq
    get_value-root_none c n nothing [] = refl
    get_value-root_none c n nothing (d ∷ q) = elim (Bool-cases (c == d)) [
      | inr other ↦ get_value-root_other c n d q other
      | inl same ↦
          subst
            (λ x.
              get_value u (node [] (x ∷ []) false node_static [] (cons n nil) none) (d ∷ q) ps
              ≡ (none, ps))
            (sym ((==_iff c d).0 same)) (get_value-root d n q ∙ nothing (d ∷ q))
    ]

    get_wild-param :
        (x : ℕ) (name : Bytes) (h : H) (d : ℕ) (v : Bytes)
        → index_byte (d ∷ v) b'/' ≡ none
        → get_wild u
            (cons (node (b':' ∷ x ∷ name) [] false node_param (x ∷ name) nil (some h)) nil)
            (d ∷ v)
            ps
          ≡ (some h, ps ++ (x ∷ name, unescaped u (d ∷ v)) ∷ [])
    unfolding get_value
    get_wild-param x name h d v absent = rw (get_wild, absent, segment) (rw (segment, absent) refl)

    -- A static route and then a route that has a parameter or a wildcard where the static one goes
    -- on make a tree that answers nothing, whatever the path: neither route is found any more.
    pub get_value-conflict :
        (c : ℕ) (pre : Bytes) (a : ℕ) (xs : Bytes) (w : ℕ) (ys : Bytes) (h h' : H) (q : Bytes)
        → HasNoWild (c ∷ pre ++ a ∷ xs)
        → is_wild w ≡ true
        → get_value u
            (add_route (add_route empty_node (c ∷ pre ++ a ∷ xs) h) (c ∷ pre ++ w ∷ ys) h')
            q
            ps
          ≡ (none, ps)
    get_value-conflict c pre a xs w ys h h' q plain wild =
        rw (conflict-tree c pre a xs w ys h h' plain wild) (
          get_value-root_none c
            (node (c ∷ pre) (a ∷ []) true node_static []
              (cons (leaf (a ∷ xs) h)
                (cons (wild_node (length (c ∷ pre ++ w ∷ ys)) (w ∷ ys) h') nil))
              none)
            (get_value-beside (c ∷ pre) (a ∷ []) node_static [] (a ∷ xs) [] false [] nil
              (cons (wild_node (length (c ∷ pre ++ w ∷ ys)) (w ∷ ys) h') nil) (some h))
            q)

    -- The one route of a tree, up to a parameter that ends it, finds every path that goes on with
    -- one more segment. The segment, unescaped where it is escaped well, is the parameter's value.
    pub get_value-capture :
        (c : ℕ) (pre : Bytes) (x : ℕ) (name : Bytes) (h : H) (d : ℕ) (v : Bytes)
        → HasNoWild (c ∷ pre)
        → index_byte (x ∷ name) b'/' ≡ none
        → index_byte (d ∷ v) b'/' ≡ none
        → get_value u (add_route empty_node (c ∷ pre ++ b':' ∷ x ∷ name) h) (c ∷ pre ++ d ∷ v) ps
          ≡ (some h, ps ++ (x ∷ name, unescaped u (d ∷ v)) ∷ [])
    unfolding get_value
    get_value-capture c pre x name h d v plain in_name in_value =
        let below = cons (node (b':' ∷ x ∷ name) [] false node_param (x ∷ name) nil (some h)) nil in
        rw (capture-tree c pre x name h plain in_name) (
          get_value-root c (node (c ∷ pre) [] true node_static [] below none) (pre ++ d ∷ v)
          ∙ get_value-wild (c ∷ pre) below d v
          ∙ get_wild-param x name h d v in_value)
