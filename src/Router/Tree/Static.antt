-- ===== src/Router/Tree/Static.antt =====
-- A tree of routes without parameters is a map from paths to handlers.
use goplusplus.Prelude.{
  ℕ, zero, suc, ◌≡◌, refl, sym, ap, subst, ◌∙◌, true, false, List, [], ◌∷◌, ◌++◌, Option, none,
  some, if◌then◌else◌, ◌==◌, arith, length, Bool-cases, inl, inr,
}
use goplusplus.Prelude.Bytes.{Bytes, bytes_eq, index_byte}
use goplusplus.Router.Tree.{
  Node, node, Nodes, nil, cons, node_static, node_param, node_catch_all, count_nodes, Params,
  empty_node, insert_child, add_route, get_value,
}
use goplusplus.Router.Tree.Prefix.{CommonPrefix, common_prefix, HasNoWild, HasNoWild-append}
use goplusplus.Router.Tree.Place.{insert_child-place}
use goplusplus.Router.Tree.Refine.{place-put, InsertsAll}
use goplusplus.Router.Tree.Descend.{put}
use goplusplus.Router.Tree.Shape.{IsStatic, AllStatic, insert_child-IsStatic}

insert_child-put_at {ℓ} :
    {H : Type ℓ} (u : Bytes → Option Bytes) (ps : Params) (p path indices : Bytes)
    (children : Nodes H) (h : Option H) (handlers : H)
    → CommonPrefix path p
    → length indices ≡ count_nodes children
    → HasNoWild path
    → ((rest : Bytes) → HasNoWild rest → InsertsAll u ps children rest handlers)
    → (q : Bytes)
    → get_value u (insert_child (node p indices false node_static [] children h) path handlers) q ps
      ≡ put u ps path handlers q (get_value u (node p indices false node_static [] children h) q ps)
insert_child-put_at u ps p path indices children h handlers v count plain inserts q =
    let plain_left = HasNoWild-append v.common v.left (subst HasNoWild (sym v.left_eq) plain) in
    subst
      (λ t.
        get_value u (insert_child (node t indices false node_static [] children h) path handlers) q
          ps
        ≡ put u ps path handlers q
            (get_value u (node t indices false node_static [] children h) q ps))
      v.right_eq
      (subst
        (λ t.
          get_value u
            (insert_child (node (v.common ++ v.right) indices false node_static [] children h) t
              handlers)
            q ps
          ≡ put u ps t handlers q (
              get_value u (node (v.common ++ v.right) indices false node_static [] children h) q
                ps))
        v.left_eq
        (rw
          (insert_child-place v.common v.left v.right indices children h handlers v.diverge
            plain_left)
          (place-put u ps v.common v.left v.right indices children h handlers q v.diverge count
            (inserts v.left plain_left))))

suc_==_suc : (j k : ℕ) → (suc j == suc k) ≡ (j == k)
suc_==_suc j k = ground arith

mutual
  unfolding IsStatic get_value insert_child

  insert_child-put {ℓ} :
      {H : Type ℓ} (u : Bytes → Option Bytes) (ps : Params) (n : Node H) (path : Bytes)
      (handlers : H)
      → IsStatic n
      → HasNoWild path
      → (q : Bytes)
      → get_value u (insert_child n path handlers) q ps
        ≡ put u ps path handlers q (get_value u n q ps)
  insert_child-put u ps (node p indices false node_static [] children h) path handlers (count, all)
        plain q =
      insert_child-put_at u ps p path indices children h handlers (common_prefix path p) count plain
        (λ rest plain_rest. insert_nth-put u ps children rest handlers all plain_rest) q
  insert_child-put u ps (node p indices true n_type name children h) path handlers stat plain q =
      absurd stat
  insert_child-put u ps (node p indices false node_param name children h) path handlers stat plain
        q =
      absurd stat
  insert_child-put u ps (node p indices false node_catch_all name children h) path handlers stat
        plain q =
      absurd stat
  insert_child-put u ps (node p indices false node_static (c ∷ name) children h) path handlers stat
        plain q =
      absurd stat

  insert_nth-put {ℓ} :
      {H : Type ℓ} (u : Bytes → Option Bytes) (ps : Params) (children : Nodes H) (path : Bytes)
      (handlers : H)
      → AllStatic children
      → HasNoWild path
      → InsertsAll u ps children path handlers
  insert_nth-put u ps nil path handlers all plain k below j q = absurd (omega arith)
  insert_nth-put u ps (cons n ns) path handlers all plain zero below zero q =
      insert_child-put u ps n path handlers all.0 plain q
  insert_nth-put u ps (cons n ns) path handlers all plain zero below (suc j) q = ground arith
  insert_nth-put u ps (cons n ns) path handlers all plain (suc k) below zero q = ground arith
  insert_nth-put u ps (cons n ns) path handlers all plain (suc k) below (suc j) q =
      rw (suc_==_suc j k) (insert_nth-put u ps ns path handlers all.1 plain k (omega arith) j q)

pub empty_node-IsStatic {ℓ} : (H : Type ℓ) → IsStatic (empty_node {H = H})
unfolding IsStatic
empty_node-IsStatic H = (refl, tt)

module _ {ℓ} {H : Type ℓ} where
  -- The tree of a list of routes, the latest one first, and the map that it stands for.
  abbrev pub tree_of : List (Bytes × H) → Node H
  tree_of [] = empty_node
  tree_of ((path, handlers) ∷ earlier) = add_route (tree_of earlier) path handlers

  abbrev pub route_at : List (Bytes × H) → Bytes → Option H
  route_at [] q = none
  route_at ((path, handlers) ∷ earlier) q =
      if bytes_eq q path then some handlers else route_at earlier q

  abbrev pub IsPlain : List (Bytes × H) → Type 0
  IsPlain [] = Unit
  IsPlain ((path, handlers) ∷ earlier) = HasNoWild path × IsPlain earlier

  pub tree_of-IsStatic : (routes : List (Bytes × H)) → IsPlain routes → IsStatic (tree_of routes)
  tree_of-IsStatic [] plain = empty_node-IsStatic H
  tree_of-IsStatic ((path, handlers) ∷ earlier) plain =
      insert_child-IsStatic (tree_of earlier) path handlers (tree_of-IsStatic earlier plain.1)
        plain.0

module _ {ℓ} {H : Type ℓ} (u : Bytes → Option Bytes) where
  -- In a tree without parameters, after a path without parameters was added, a lookup of that path
  -- gives the new handlers, and every other lookup gives what it gave before. The parameters of the
  -- request are as they were. The tree is again one without parameters.
  pub get_value-add_route :
      (n : Node H) (path : Bytes) (handlers : H) (q : Bytes) (ps : Params)
      → IsStatic n
      → HasNoWild path
      → (get_value u (add_route n path handlers) q ps
          ≡ (if bytes_eq q path then (some handlers, ps) else get_value u n q ps))
        × IsStatic (add_route n path handlers)
  get_value-add_route n path handlers q ps stat plain = (
    insert_child-put u ps n path handlers stat plain q,
    insert_child-IsStatic n path handlers stat plain,
  )

  pub get_value-empty :
      (q : Bytes) (ps : Params) → get_value u (empty_node {H = H}) q ps ≡ (none, ps)
  unfolding get_value bytes_eq index_byte
  get_value-empty [] ps = refl
  get_value-empty (c ∷ q) ps = ground arith

  pub put-pair :
      (path : Bytes) (handlers : H) (q : Bytes) (old : Option H) (ps : Params)
      → put u ps path handlers q (old, ps) ≡ ((if bytes_eq q path then some handlers else old), ps)
  put-pair path handlers q old ps = elim (Bool-cases (bytes_eq q path)) [
    | inl same ↦ rw same refl
    | inr other ↦ rw other refl
  ]

  -- The tree that is built from an empty one by adding routes without parameters, in any order and
  -- with any repetitions, is the finite map of these routes: a lookup gives the handlers of the
  -- latest route with that very path, none where there is none, and leaves the parameters as they were.
  pub get_value-tree_of :
      (routes : List (Bytes × H)) (q : Bytes) (ps : Params)
      → IsPlain routes
      → get_value u (tree_of routes) q ps ≡ (route_at routes q, ps)
  get_value-tree_of [] q ps plain = get_value-empty q ps
  get_value-tree_of ((path, handlers) ∷ earlier) q ps plain =
      insert_child-put u ps (tree_of earlier) path handlers (tree_of-IsStatic earlier plain.1)
        plain.0 q
      ∙ ap (put u ps path handlers q) (get_value-tree_of earlier q ps plain.1)
      ∙ put-pair path handlers q (route_at earlier q) ps
