-- ===== src/Router/Engine/Tests.antt =====
-- A small application: two groups, three routes, a fallback and two mounts.
use Prim.Native.String.{String}
use goplusplus.Prelude.{
  if◌then◌else◌, ℕ, ◌≡◌, refl, true, List, [], ◌∷◌, ◌++◌, Option, none, some, ◌⊎◌, inl, inr, length,
}
use goplusplus.Prelude.Bytes.{
  Bytes, codes, bytes_eq, index_byte, strip_prefix, has_prefix, trim_prefix,
}
use goplusplus.Prelude.Map.{Map, lookup, assign}
use goplusplus.Router.Tree.{
  Node, longest_common_prefix, index_wild, static_node, add_child, wild_node, next_child,
  split_node, insert_child, get_value, unescaped,
}
use goplusplus.Router.Engine.{
  is_empty, RoutePanic, path_must_begin_with_slash, RouterGroup, Engine, StaticRoute, new_engine,
  engine_add_route, sub_group, version_group, handle_any, any_tree, serve_http,
}
use goplusplus.Router.Engine.Registered.{Registration, register_all, Serves, serve_http-registered}
use goplusplus.Prelude.Split.{split_on}
use goplusplus.Router.Engine.Files.{
  named_file, static_file, segments, slash, join_slash, clean_from_root, clean_segments,
  static_relative_path, normalize_static_mount, insert_route, sort_routes, add_static_route,
  first_route, match_static_route, index_html,
}
use goplusplus.Router.Engine.Files.Mounts.{Matches, Each, Within, add_static_route-longest}
use goplusplus.Router.Engine.Files.Segments.{nonempty_segments}
use goplusplus.Router.Engine.Files.Relative.{static_file-segments}

program : Unit {0}
unfolding bytes_eq index_byte strip_prefix has_prefix trim_prefix lookup assign
    longest_common_prefix index_wild static_node add_child wild_node next_child split_node
    insert_child get_value unescaped any_tree split_on clean_segments named_file static_file
    static_relative_path insert_route sort_routes first_route
program = tt

abbrev refused : Bytes → Option Bytes
refused s = none

-- path.Join of a prefix that begins with '/'
abbrev join : Bytes → Bytes → Bytes
join prefix relative = clean_from_root (prefix ++ b'/' ∷ relative)

abbrev in_order : Map (Node (List ℕ)) → List (String × Node (List ℕ))
in_order trees = trees

abbrev api : RouterGroup ℕ
api = sub_group join (new_engine 404).root_group (codes "/api") (10 ∷ [])

abbrev admin : RouterGroup ℕ
admin = sub_group join api (codes "/admin") (20 ∷ [])

abbrev calls : List (Registration ℕ)
calls =
    record { group = admin; method = "GET"; relative = codes "/users"; handlers = 3 ∷ [] }
    ∷ record { group = api; method = "POST"; relative = codes "/users"; handlers = 2 ∷ [] }
    ∷ record { group = api; method = "GET"; relative = codes "/users"; handlers = 1 ∷ [] }
    ∷ []

-- The chain of a request to the application, by its method and path.
abbrev chain_at : String → Bytes → List ℕ
chain_at method path = elim (register_all join (new_engine 404) calls) [
  | inl panic ↦ []
  | inr engine ↦
      (serve_http refused in_order (match_static_route (λ s. true)) 204 engine method path).0
]

group_middlewares :
    chain_at "GET" (codes "/api/admin/users")
      ∷ chain_at "POST" (codes "/api/users")
      ∷ chain_at "OPTIONS" (codes "/api/users")
      ∷ chain_at "PUT" (codes "/api/users")
      ∷ []
    ≡ (10 ∷ 20 ∷ 3 ∷ []) ∷ (10 ∷ 2 ∷ []) ∷ (204 ∷ []) ∷ (404 ∷ []) ∷ []
unfolding program
group_middlewares = refl

version_prefix :
    (version_group {H = ℕ} join (new_engine 404).root_group (codes "/v1") (codes "users")).prefix
    ≡ codes "/api/v1/users"
unfolding program
version_prefix = refl

serve_http-registered_example :
    (e : Engine ℕ) × (register_all join (new_engine 404) calls ≡ inr e)
    × Serves join refused 404 in_order
        (match_static_route (λ s. true))
        204
        calls
        "GET"
        (codes "/api/admin/users")
        e
unfolding program
serve_http-registered_example =
    serve_http-registered join refused 404 in_order (match_static_route (λ s. true)) 204 calls "GET"
      (codes "/api/admin/users")
      ((refl, refl, refl, refl), ((refl, refl, refl, refl), ((refl, refl, refl, refl), tt))) refl

abbrev mounted : Engine ℕ
mounted =
    add_static_route (add_static_route (new_engine 404) (codes "/") (7 ∷ [])) (codes "/assets")
      (8 ∷ [])

abbrev docs : StaticRoute ℕ
docs = record { mount = codes "/assets/docs"; handlers = 9 ∷ [] }

mounts_by_length :
    match_static_route
      (λ s. true)
      (add_static_route mounted docs.mount docs.handlers)
      "GET"
      (codes "/assets/docs/a.html")
    ≡ some (9 ∷ [])
unfolding program
mounts_by_length = refl

add_static_route-longest_example :
    Matches {H = ℕ} (λ s. true) (codes "/assets/docs/a.html") docs
    × Each
        (Within (λ s. true) (codes "/assets/docs/a.html") (length docs.mount))
        mounted.static_routes
    × Within {H = ℕ}
        (λ s. true)
        (codes "/assets/docs/a.html")
        (length docs.mount)
        record { mount = docs.mount; handlers = docs.handlers }
unfolding program
add_static_route-longest_example =
    add_static_route-longest (λ s. true) (codes "/assets/docs/a.html") mounted docs.mount
      docs.handlers docs refl

files :
    static_relative_path (λ s. true) (codes "/assets") (codes "/assets//css/a.css")
    ≡ some (codes "css/a.css")
unfolding program
files = refl

files_above : static_relative_path (λ s. true) (codes "/assets") (codes "/assets/../secret") ≡ none
unfolding program
files_above = refl

index_of_mount :
    static_relative_path (λ s. true) (codes "/assets") (codes "/assets/") ≡ some index_html
unfolding program
index_of_mount = refl

mount_of_group : normalize_static_mount (codes "assets//img/") ≡ codes "/assets/img"
unfolding program
mount_of_group = refl

abbrev methods_of : RoutePanic ⊎ Engine ℕ → ℕ
methods_of (inl panic) = 0
methods_of (inr engine) = length engine.trees

methods_registered : methods_of (handle_any join api (new_engine 404) (codes "/ping") (1 ∷ [])) ≡ 7
unfolding program
methods_registered = refl

relative_refused :
    engine_add_route {H = ℕ} (new_engine 404) "GET" (codes "users") (1 ∷ [])
    ≡ inl path_must_begin_with_slash
unfolding program
relative_refused = refl

abbrev below_mount : Bytes
below_mount = codes "//css//a.css"

static_file-segments_example : static_file (λ s. true) below_mount ≡ (
    let names = nonempty_segments (segments (trim_prefix below_mount slash)) in
    if is_empty names then some index_html else if true then some (join_slash names) else none)
unfolding program
static_file-segments_example = static_file-segments (λ s. true) below_mount refl
