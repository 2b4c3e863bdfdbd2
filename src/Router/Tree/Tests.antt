-- ===== src/Router/Tree/Tests.antt =====
-- Routes of an application, looked up.
use goplusplus.Prelude.{ℕ, ◌≡◌, refl, List, [], ◌∷◌, ◌++◌, Option, none, some, if◌then◌else◌}
use goplusplus.Prelude.Bytes.{Bytes, codes, bytes_eq, index_byte}
use goplusplus.Router.Tree.{
  Node, empty_node, longest_common_prefix, index_wild, static_node, add_child, wild_node,
  next_child, split_node, insert_child, add_route, get_value, unescaped, get_param,
}
use goplusplus.Router.Tree.Shape.{IsStatic}
use goplusplus.Router.Tree.Static.{
  tree_of, route_at, get_value-add_route, tree_of-IsStatic, get_value-tree_of,
}
use goplusplus.Router.Tree.Capture.{get_value-conflict, get_value-capture}

program : Unit {0}
unfolding bytes_eq index_byte longest_common_prefix index_wild static_node add_child wild_node
    next_child split_node insert_child get_value unescaped get_param IsStatic
program = tt

-- An escape that is refused.
abbrev refused : Bytes → Option Bytes
refused s = none

abbrev tree : Node ℕ
tree =
    add_route
      (add_route (add_route (add_route empty_node (codes "/users") 1) (codes "/users/:id/posts") 2)
        (codes "/health") 3)
      (codes "/users/:id") 4

posts_of_user :
    get_value {H = ℕ} refused tree (codes "/users/42/posts") []
    ≡ (some 2, (codes "id", codes "42") ∷ [])
unfolding program
posts_of_user = refl

one_user :
    get_value {H = ℕ} refused tree (codes "/users/42") [] ≡ (some 4, (codes "id", codes "42") ∷ [])
unfolding program
one_user = refl

health : get_value {H = ℕ} refused tree (codes "/health") [] ≡ (some 3, [])
unfolding program
health = refl

-- A lookup that fails below a parameter leaves the parameter in the list.
stale_parameter :
    get_value {H = ℕ} refused tree (codes "/users/42/x") [] ≡ (none, (codes "id", codes "42") ∷ [])
unfolding program
stale_parameter = refl

catch_all :
    get_value {H = ℕ} refused
      (add_route empty_node (codes "/files/*path") 5)
      (codes "/files/a/b")
      []
    ≡ (some 5, (codes "path", codes "a/b") ∷ [])
unfolding program
catch_all = refl

-- The two routes in the other order: neither is found.
abbrev param_first : Node ℕ
param_first = add_route (add_route empty_node (codes "/users/:id") 2) (codes "/users/new") 1

param_first_static : get_value {H = ℕ} refused param_first (codes "/users/new") [] ≡ (none, [])
unfolding program
param_first_static = refl

param_first_param : get_value {H = ℕ} refused param_first (codes "/users/7") [] ≡ (none, [])
unfolding program
param_first_param = refl

abbrev routes : List (Bytes × ℕ)
routes = (codes "/team", 3) ∷ (codes "/tea", 2) ∷ (codes "/test", 1) ∷ []

get_value-add_route_example :
    (get_value {H = ℕ} refused (add_route (tree_of routes) (codes "/te") 4) (codes "/tea") [] ≡ (
      if bytes_eq (codes "/tea") (codes "/te")
      then (some 4, [])
      else get_value {H = ℕ} refused (tree_of routes) (codes "/tea") []))
    × IsStatic (add_route (tree_of routes) (codes "/te") 4)
unfolding program
get_value-add_route_example =
    get_value-add_route refused (tree_of routes) (codes "/te") 4 (codes "/tea") []
      (tree_of-IsStatic routes (refl, (refl, (refl, tt)))) refl

get_value-tree_of_example :
    get_value {H = ℕ} refused (tree_of routes) (codes "/tea") []
    ≡ (route_at routes (codes "/tea"), [])
unfolding program
get_value-tree_of_example =
    get_value-tree_of refused routes (codes "/tea") [] (refl, (refl, (refl, tt)))

get_value-conflict_example :
    get_value {H = ℕ} refused
      (add_route
        (add_route empty_node (codes "/users/" ++ codes "new") 1)
        (codes "/users/" ++ codes ":id")
        2)
      (codes "/users/new")
      []
    ≡ (none, [])
unfolding program
get_value-conflict_example =
    get_value-conflict refused [] b'/' (codes "users/") b'n' (codes "ew") b':' (codes "id") 1 2
      (codes "/users/new") refl refl

get_value-capture_example :
    get_value {H = ℕ} refused (add_route empty_node (codes "/users/:id") 2) (codes "/users/7") []
    ≡ (some 2, (codes "id", unescaped refused (codes "7")) ∷ [])
unfolding program
get_value-capture_example =
    get_value-capture refused [] b'/' (codes "users/") b'i' (codes "d") 2 b'7' [] refl refl refl
