-- ===== src/Router/Engine/Registered.antt =====
-- The routes of an application without path parameters: what a request gets.
use Prim.Native.String.{String}
use goplusplus.Prelude.{
  ◌≡◌, refl, sym, ap, ◌∙◌, true, false, ◌&&◌, List, [], ◌∷◌, ◌++◌, Option, none, some, ◌⊎◌, inl,
  inr, if◌then◌else◌, str_eq, eq_iff, Bool-cases, Option-cases,
}
use goplusplus.Prelude.Bytes.{Bytes, bytes_eq}
use goplusplus.Prelude.Map.{Map, lookup, assign, lookup-assign}
use goplusplus.Router.Tree.{Node, Params, add_route, get_value}
use goplusplus.Router.Tree.Prefix.{HasNoWild}
use goplusplus.Router.Tree.Shape.{IsStatic}
use goplusplus.Router.Tree.Static.{
  get_value-add_route, get_value-empty, empty_node-IsStatic, put-pair,
}
use goplusplus.Router.Engine.{
  RoutePanic, RouterGroup, Engine, new_engine, tree_for, combine_path, combine_middlewares, handle,
  serve_http, serve_tree, begins_with_slash, is_empty,
}

module _ {ℓ} (H : Type ℓ) where
  -- A call of a group's Handle.
  pub record Registration : Type ℓ where
    pub group : RouterGroup H
    pub method : String
    pub relative : Bytes
    pub handlers : List H

module _ {ℓ} {H : Type ℓ} (path_join : Bytes → Bytes → Bytes) where
  abbrev pub route_path : Registration H → Bytes
  route_path r = combine_path path_join r.group r.relative

  abbrev pub route_chain : Registration H → List H
  route_chain r = combine_middlewares r.group r.handlers

  -- The registrations of an application, the latest one first.
  abbrev pub register_all : Engine H → List (Registration H) → RoutePanic ⊎ Engine H
  register_all engine [] = inr engine
  register_all engine (r ∷ earlier) = elim (register_all engine earlier) [
    | inl panic ↦ inl panic
    | inr engine' ↦ handle path_join r.group engine' r.method r.relative r.handlers
  ]

  -- The latest registration with a method and a path.
  abbrev pub registered : List (Registration H) → String → Bytes → Option (List H)
  registered [] method path = none
  registered (r ∷ earlier) method path =
      if str_eq r.method method && bytes_eq path (route_path r)
      then some (route_chain r)
      else registered earlier method path

  abbrev pub IsRegistrable : Registration H → Type 0
  IsRegistrable r =
      HasNoWild (route_path r)
      × (begins_with_slash (route_path r) ≡ true)
      × (str_eq r.method "" ≡ false)
      × (is_empty (route_chain r) ≡ false)

  abbrev pub AllRegistrable : List (Registration H) → Type 0
  AllRegistrable [] = Unit
  AllRegistrable (r ∷ earlier) = IsRegistrable r × AllRegistrable earlier

  -- The trees hold the registrations.
  record Holds (u : Bytes → Option Bytes) (not_found : H) (rs : List (Registration H))
      (e : Engine H) : Type ℓ where
    finds :
        (method : String) (path : Bytes) (ps : Params)
        → get_value u (tree_for e.trees method) path ps ≡ (registered rs method path, ps)
    static : (method : String) → IsStatic (tree_for e.trees method)
    keeps : e.not_found_handler ≡ not_found

  handle-inr :
      (e : Engine H) (r : Registration H)
      → IsRegistrable r
      → handle path_join r.group e r.method r.relative r.handlers
        ≡ inr (record e {
          documented = e.documented ++ (r.method, route_path r) ∷ [];
          trees =
              assign e.trees r.method
                (add_route (tree_for e.trees r.method) (route_path r) (route_chain r));
        })
  handle-inr e r (plain, slash, named, nonempty) = rw (handle, slash, named, nonempty) refl

  tree_for-assign :
      (trees : Map (Node (List H))) (method : String) (root : Node (List H)) (m : String)
      → tree_for (assign trees method root) m ≡ (if str_eq method m then root else tree_for trees m)
  tree_for-assign trees method root m = elim (Bool-cases (str_eq method m)) [
    | inl same ↦ rw (tree_for, lookup-assign trees method root m, same) refl
    | inr other ↦ rw (tree_for, lookup-assign trees method root m, other) refl
  ]

  module _ (u : Bytes → Option Bytes) (not_found : H) where
    Holds-new : Holds u not_found [] (new_engine not_found)
    unfolding lookup
    Holds-new = record {
      finds = λ method path ps. get_value-empty u path ps;
      static = λ method. empty_node-IsStatic (List H);
      keeps = refl;
    }

    Holds-handle :
        (rs : List (Registration H)) (e : Engine H) (r : Registration H)
        → Holds u not_found rs e
        → IsRegistrable r
        → Holds u not_found (r ∷ rs) (record e {
          documented = e.documented ++ (r.method, route_path r) ∷ [];
          trees =
              assign e.trees r.method
                (add_route (tree_for e.trees r.method) (route_path r) (route_chain r));
        })
    Holds-handle rs e r inv (plain, slash, named, nonempty) =
        let root = add_route (tree_for e.trees r.method) (route_path r) (route_chain r) in
        let add = λ (path : Bytes) (ps : Params).
          get_value-add_route u (tree_for e.trees r.method) (route_path r) (route_chain r) path ps
            (inv.static r.method) plain in
        let added : ((path : Bytes) (ps : Params)
              → get_value u root path ps ≡ (
                  if bytes_eq path (route_path r)
                  then (some (route_chain r), ps)
                  else get_value u (tree_for e.trees r.method) path ps))
            × IsStatic root =
          (λ path ps. (add path ps).0, (add [] []).1) in
        record {
          finds = λ method path ps.
              ap (λ t. get_value u t path ps) (tree_for-assign e.trees r.method root method)
              ∙ elim (Bool-cases (str_eq r.method method)) [
                | inr other ↦ rw (other, registered) (inv.finds method path ps)
                | inl same ↦
                    rw (same, registered)
                      (added.0 path ps
                        ∙ ap
                            (λ t.
                              if bytes_eq path (route_path r)
                              then (some (route_chain r), ps)
                              else t)
                            (inv.finds r.method path ps
                              ∙ ap (λ m. (registered rs m path, ps))
                                  ((eq_iff r.method method).0 same))
                        ∙ put-pair u (route_path r) (route_chain r) path (registered rs method path)
                            ps)
              ];
          static = λ method.
              rw (tree_for-assign e.trees r.method root method)
                (elim (Bool-cases (str_eq r.method method)) [
                  | inr other ↦ rw other (inv.static method)
                  | inl same ↦ rw same added.1
                ]);
          keeps = inv.keeps;
        }

    serve_tree-tree_for :
        (trees : Map (Node (List H))) (method : String) (path : Bytes)
        → serve_tree u trees method path ≡ get_value u (tree_for trees method) path []
    serve_tree-tree_for trees method path = elim (Option-cases (lookup trees method)) [
      | inl absent ↦ rw (serve_tree, absent, tree_for) (sym (get_value-empty u path []))
      | inr (root, present) ↦ rw (serve_tree, present, tree_for) refl
    ]

    -- What serving needs of the engine that all the registrations make.
    register_all-Holds :
        (rs : List (Registration H))
        → AllRegistrable rs
        → (e : Engine H) × (register_all (new_engine not_found) rs ≡ inr e) × Holds u not_found rs e
    register_all-Holds [] all = (new_engine not_found, refl, Holds-new)
    register_all-Holds (r ∷ earlier) all =
        let (e, made, inv) = register_all-Holds earlier all.1 in
        (
          record e {
            documented = e.documented ++ (r.method, route_path r) ∷ [];
            trees =
                assign e.trees r.method
                  (add_route (tree_for e.trees r.method) (route_path r) (route_chain r));
          },
          rw (register_all, made) (handle-inr e r all.0),
          Holds-handle earlier e r inv all.0,
        )

    module _ (visit : Map (Node (List H)) → List (String × Node (List H)))
        (match_static : Engine H → String → Bytes → Option (List H)) (no_content : H)
        (rs : List (Registration H)) (method : String) (path : Bytes) where
      abbrev pub Serves : Engine H → Type ℓ
      Serves e = serve_http u visit match_static no_content e method path ≡ (
        (elim (registered rs method path) [
          | some chain ↦ chain
          | none ↦ elim (match_static e method path) [ some chain ↦ chain | none ↦ not_found ∷ [] ]
        ]),
        [],
      )

      serve_http-Holds :
          (e : Engine H) → Holds u not_found rs e → str_eq method "OPTIONS" ≡ false → Serves e
      serve_http-Holds e inv other =
          let tree = serve_tree-tree_for e.trees method path ∙ inv.finds method path [] in
          elim (Option-cases (registered rs method path)) [
            | inr (chain, found) ↦ rw (serve_http, tree, found) (rw tree refl)
            | inl absent ↦ elim (Option-cases (match_static e method path)) [
              | inr (chain, found) ↦ rw (serve_http, tree, absent, found) (rw tree refl)
              | inl missing ↦
                  rw (serve_http, tree, absent, missing, other, inv.keeps) (rw tree refl)
            ]
          ]

      -- The registrations of an application, each a call of a group's Handle with a chain that is not
      -- empty, a method and a path that begins with '/' and has no parameter, never panic. A request
      -- that is no OPTIONS request then gets the middlewares of the group and the handlers of the
      -- latest registration with its method and very path; with none the static mount that matches;
      -- with none the handler for paths that are not found. It gets no path parameters.
      pub serve_http-registered :
          AllRegistrable rs
          → str_eq method "OPTIONS" ≡ false
          → (e : Engine H) × (register_all (new_engine not_found) rs ≡ inr e) × Serves e
      serve_http-registered all other =
          let (e, made, inv) = register_all-Holds rs all in (e, made, serve_http-Holds e inv other)
