-- ===== src/Router/Engine.antt =====
-- gpp.go and router.go: route groups, the registration of routes, and the handlers that a request
-- gets. A method is a string, a path a list of bytes. path.Join is a parameter `path_join`. The
-- OpenAPI generator keeps the method and the path of each route. The pool of contexts is left out: a
-- request starts from the reset context, which has no parameters.
pub mod Files
pub mod Registered
mod Tests
use Prim.Native.String.{String}
use goplusplus.Prelude.{
  ℕ, Bool, true, false, not, ◌&&◌, List, [], ◌∷◌, ◌++◌, Option, none, some, ◌⊎◌, inl, inr,
  if◌then◌else◌, ◌==◌, str_eq, map,
}
use goplusplus.Prelude.Bytes.{Bytes, trim_prefix, strip_prefix}
use goplusplus.Prelude.Map.{Map, lookup, assign}
use goplusplus.Router.Tree.{Node, empty_node, Params, add_route, get_value}

-- The panics of Engine.addRoute.
pub data RoutePanic : Type 0 where
  path_must_begin_with_slash method_cannot_be_empty chain_cannot_be_empty : RoutePanic

abbrev pub ends_with_slash : Bytes → Bool
ends_with_slash [] = false
ends_with_slash (x ∷ []) = x == b'/'
ends_with_slash (x ∷ y ∷ xs) = ends_with_slash (y ∷ xs)

abbrev pub begins_with_slash : Bytes → Bool
begins_with_slash [] = false
begins_with_slash (x ∷ xs) = x == b'/'

abbrev pub is_empty {ℓ} : {A : Type ℓ} → List A → Bool
is_empty [] = true
is_empty (x ∷ xs) = false

-- "/api/"
abbrev api_prefix : Bytes
api_prefix = b'/' ∷ b'a' ∷ b'p' ∷ b'i' ∷ b'/' ∷ []

module _ {ℓ} (H : Type ℓ) where
  pub record RouterGroup : Type ℓ where
    pub prefix : Bytes
    pub middlewares : List H

  pub record StaticRoute : Type ℓ where
    pub mount : Bytes
    pub handlers : List H

  pub record Engine : Type ℓ where
    pub root_group : RouterGroup
    pub trees : Map (Node (List H))
    pub documented : List (String × Bytes)
    pub static_routes : List StaticRoute
    pub not_found_handler : H

module _ {ℓ} {H : Type ℓ} where
  abbrev pub new_engine : H → Engine H
  new_engine not_found = record {
    root_group = record { prefix = b'/' ∷ []; middlewares = [] };
    trees = [];
    documented = [];
    static_routes = [];
    not_found_handler = not_found;
  }

  abbrev pub tree_for : Map (Node (List H)) → String → Node (List H)
  tree_for trees method = elim (lookup trees method) [ none ↦ empty_node | some root ↦ root ]

  abbrev pub engine_add_route : Engine H → String → Bytes → List H → RoutePanic ⊎ Engine H
  engine_add_route engine method path handlers =
      if not (begins_with_slash path)
      then inl path_must_begin_with_slash
      else if str_eq method ""
      then inl method_cannot_be_empty
      else if is_empty handlers
      then inl chain_cannot_be_empty
      else inr (record engine {
        documented = engine.documented ++ (method, path) ∷ [];
        trees = assign engine.trees method (add_route (tree_for engine.trees method) path handlers);
      })

  abbrev pub combine_middlewares : RouterGroup H → List H → List H
  combine_middlewares group handlers = group.middlewares ++ handlers

  abbrev pub use_middlewares : RouterGroup H → List H → RouterGroup H
  use_middlewares group middlewares = record group {
    middlewares = group.middlewares ++ middlewares;
  }

  module _ (path_join : Bytes → Bytes → Bytes) where
    abbrev pub combine_path : RouterGroup H → Bytes → Bytes
    combine_path group [] = group.prefix
    combine_path group (c ∷ relative) =
        let final = path_join group.prefix (c ∷ relative) in
        if ends_with_slash (c ∷ relative) && not (ends_with_slash final)
        then final ++ b'/' ∷ []
        else final

    abbrev pub sub_group : RouterGroup H → Bytes → List H → RouterGroup H
    sub_group group relative handlers = record {
      prefix = combine_path group relative;
      middlewares = combine_middlewares group handlers;
    }

    -- The relative path is optional: [] where there is none.
    abbrev pub version_group : RouterGroup H → Bytes → Bytes → RouterGroup H
    version_group group v [] = sub_group group (api_prefix ++ trim_prefix v (b'/' ∷ [])) []
    version_group group v (c ∷ relative) =
        sub_group group
          (api_prefix ++ trim_prefix v (b'/' ∷ []) ++ b'/' ∷ trim_prefix (c ∷ relative) (b'/' ∷ []))
          []

    abbrev pub handle : RouterGroup H → Engine H → String → Bytes → List H → RoutePanic ⊎ Engine H
    handle group engine method relative handlers =
        engine_add_route engine method (combine_path group relative)
          (combine_middlewares group handlers)

    -- A panic leaves the methods that come later unregistered.
    abbrev pub handle_all :
        RouterGroup H → Engine H → List String → Bytes → List H → RoutePanic ⊎ Engine H
    handle_all group engine [] relative handlers = inr engine
    handle_all group engine (method ∷ methods) relative handlers =
        elim (handle group engine method relative handlers) [
          | inl panic ↦ inl panic
          | inr engine' ↦ handle_all group engine' methods relative handlers
        ]

    abbrev pub handle_any : RouterGroup H → Engine H → Bytes → List H → RoutePanic ⊎ Engine H
    handle_any group engine relative handlers =
        handle_all group engine
          ("GET" ∷ "POST" ∷ "PUT" ∷ "DELETE" ∷ "PATCH" ∷ "OPTIONS" ∷ "HEAD" ∷ []) relative handlers

  -- The first tree, in the order in which Go visits the map, that has handlers for the path.
  unfoldable pub any_tree :
      (Bytes → Option Bytes) → List (String × Node (List H)) → Bytes → Params → Bool × Params
  any_tree u [] path ps = (false, ps)
  any_tree u ((method, root) ∷ trees) path ps =
      let found = get_value u root path ps in
      let rest = any_tree u trees path found.1 in
      elim found.0 [ some handlers ↦ (true, found.1) | none ↦ rest ]

  -- The tree of the request's method.
  abbrev pub serve_tree :
      (Bytes → Option Bytes) → Map (Node (List H)) → String → Bytes → Option (List H) × Params
  serve_tree u trees method path = elim (lookup trees method) [
    | none ↦ (none, [])
    | some root ↦ get_value u root path []
  ]

  -- ServeHTTP up to c.Next: the chain and the parameters. `visit` is the order in which Go visits a
  -- map, `match_static` is Engine.matchStaticRoute, and `no_content` the handler that answers a
  -- preflight request.
  abbrev pub serve_http :
      (Bytes → Option Bytes)
      → (Map (Node (List H)) → List (String × Node (List H)))
      → (Engine H → String → Bytes → Option (List H))
      → (no_content : H) → Engine H
      → String
      → Bytes
      → List H × Params
  serve_http u visit match_static no_content engine method path =
      let from_tree = serve_tree u engine.trees method path in
      elim from_tree.0 [
        | some handlers ↦ (handlers, from_tree.1)
        | none ↦ elim (match_static engine method path) [
          | some handlers ↦ (handlers, from_tree.1)
          | none ↦
              let preflight = any_tree u (visit engine.trees) path from_tree.1 in
              if str_eq method "OPTIONS"
              then (if preflight.0
                  then (engine.root_group.middlewares ++ no_content ∷ [], preflight.1)
                  else (engine.not_found_handler ∷ [], preflight.1))
              else (engine.not_found_handler ∷ [], from_tree.1)
        ]
      ]
