-- ===== src/Router/Engine/Files.antt =====
-- router.go, static files: their mounts, and the file that a request path names. fs.ValidPath asks
-- that a path is valid UTF-8, which is a parameter `utf8_valid`.
pub mod Mounts
pub mod Segments
pub mod Relative
pub mod Serve
pub mod Named
pub mod Served
pub mod Reached
mod Tests
use Prim.Native.String.{String}
use goplusplus.Prelude.{
  ℕ, Bool, true, false, not, ◌&&◌, ◌||◌, List, [], ◌∷◌, ◌++◌, Option, none, some, if◌then◌else◌,
  ltb, ◌==◌, str_eq, length, reverse,
}
use goplusplus.Prelude.Bytes.{Bytes, bytes_eq, has_prefix, trim_prefix, strip_prefix}
use goplusplus.Prelude.Split.{parts_on, join_on}
use goplusplus.Router.Engine.{Engine, StaticRoute}

abbrev pub slash : Bytes
slash = b'/' ∷ []

abbrev pub dot : Bytes
dot = b'.' ∷ []

abbrev pub dot_dot : Bytes
dot_dot = b'.' ∷ b'.' ∷ []

-- "index.html"
abbrev pub index_html : Bytes
index_html = b'i' ∷ b'n' ∷ b'd' ∷ b'e' ∷ b'x' ∷ b'.' ∷ b'h' ∷ b't' ∷ b'm' ∷ b'l' ∷ []

abbrev pub is_nil : Bytes → Bool
is_nil [] = true
is_nil (c ∷ s) = false

-- strings.Split(s, "/") and strings.Join(segments, "/")
abbrev pub segments : Bytes → List Bytes
segments s = parts_on b'/' s

abbrev pub join_slash : List Bytes → Bytes
join_slash names = join_on b'/' names

abbrev pub is_dots : Bytes → Bool
is_dots segment = bytes_eq segment dot || bytes_eq segment dot_dot

-- path.Clean of a path from the root: the segments that are left, the last one first
unfoldable pub clean_segments : List Bytes → List Bytes → List Bytes
clean_segments kept [] = kept
clean_segments [] (segment ∷ rest) =
    if is_nil segment || is_dots segment
    then clean_segments [] rest
    else clean_segments (segment ∷ []) rest
clean_segments (last ∷ kept) (segment ∷ rest) =
    if is_nil segment || bytes_eq segment dot
    then clean_segments (last ∷ kept) rest
    else if bytes_eq segment dot_dot
    then clean_segments kept rest
    else clean_segments (segment ∷ last ∷ kept) rest

abbrev pub clean_from_root : Bytes → Bytes
clean_from_root s = b'/' ∷ join_slash (reverse (clean_segments [] (segments s)))

abbrev pub all_named : List Bytes → Bool
all_named [] = true
all_named (segment ∷ rest) = not (is_nil segment || is_dots segment) && all_named rest

abbrev pub any_dots : List Bytes → Bool
any_dots [] = false
any_dots (segment ∷ rest) = is_dots segment || any_dots rest

module _ (utf8_valid : Bytes → Bool) where
  abbrev pub valid_path : Bytes → Bool
  valid_path name = utf8_valid name && (bytes_eq name dot || all_named (segments name))

  -- The file that a cleaned path names.
  unfoldable pub named_file : Bytes → Option Bytes
  named_file cleaned =
      if bytes_eq cleaned dot || is_nil cleaned
      then some index_html
      else if not (valid_path cleaned)
      then none
      else some cleaned

  -- The last part of staticRelativePath: what is left of the request path below the mount.
  unfoldable pub static_file : Bytes → Option Bytes
  static_file rest =
      let relative = trim_prefix rest slash in
      if any_dots (segments relative)
      then none
      else named_file (trim_prefix (clean_from_root relative) slash)

  unfoldable pub static_relative_path : Bytes → Bytes → Option Bytes
  static_relative_path mount request_path =
      if not (bytes_eq mount slash)
        && not (bytes_eq request_path mount)
        && not (has_prefix request_path (mount ++ slash))
      then none
      else static_file
          (if bytes_eq mount slash then request_path else trim_prefix request_path mount)

-- strings.TrimSuffix(s, "/")
abbrev pub trim_slash : Bytes → Bytes
trim_slash [] = []
trim_slash (c ∷ []) = if c == b'/' then [] else c ∷ []
trim_slash (c ∷ d ∷ s) = c ∷ trim_slash (d ∷ s)

abbrev pub normalize_static_mount : Bytes → Bytes
normalize_static_mount mount =
    let cleaned = clean_from_root (trim_prefix mount slash) in
    if is_nil mount || bytes_eq mount dot
    then slash
    else if bytes_eq cleaned slash
    then cleaned
    else trim_slash cleaned

module _ {ℓ} {H : Type ℓ} where
  -- slices.SortStableFunc by the length of the mount, the longest first: an insertion sort, in which
  -- a route goes behind those that are not shorter.
  unfoldable pub insert_route : StaticRoute H → List (StaticRoute H) → List (StaticRoute H)
  insert_route route [] = route ∷ []
  insert_route route (other ∷ routes) =
      if ltb (length other.mount) (length route.mount)
      then route ∷ other ∷ routes
      else other ∷ insert_route route routes

  unfoldable pub sort_routes : List (StaticRoute H) → List (StaticRoute H) → List (StaticRoute H)
  sort_routes sorted [] = sorted
  sort_routes sorted (route ∷ routes) = sort_routes (insert_route route sorted) routes

  abbrev pub add_static_route : Engine H → Bytes → List H → Engine H
  add_static_route engine mount handlers = record engine {
    static_routes =
        sort_routes [] (engine.static_routes ++ record { mount = mount; handlers = handlers } ∷ []);
  }

  module _ (utf8_valid : Bytes → Bool) where
    unfoldable pub first_route : List (StaticRoute H) → Bytes → Option (StaticRoute H)
    first_route [] request_path = none
    first_route (route ∷ routes) request_path =
        elim (static_relative_path utf8_valid route.mount request_path) [
          | none ↦ first_route routes request_path
          | some file ↦ some route
        ]

    abbrev pub match_static_route : Engine H → String → Bytes → Option (List H)
    match_static_route engine method request_path =
        if not (str_eq method "GET") && not (str_eq method "HEAD")
        then none
        else elim (first_route engine.static_routes request_path) [
          | none ↦ none
          | some route ↦ some route.handlers
        ]
