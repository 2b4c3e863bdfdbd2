-- ===== src/Router/Engine/Files/Serve.antt =====
-- router.go, StaticFS: the file of an fs.FS that the handler of a mount serves. What Open and Stat
-- say of a name is a function from names. The path functions of the package path are written out for
-- the cleaned names that staticRelativePath gives.
use goplusplus.Prelude.{
  Bool, true, false, not, ◌&&◌, List, [], ◌∷◌, ◌++◌, Option, none, some, if◌then◌else◌, ◌==◌,
  reverse,
}
use goplusplus.Prelude.Bytes.{Bytes, bytes_eq, codes}
use goplusplus.Router.Engine.Files.{
  slash, dot, index_html, is_nil, segments, join_slash, clean_segments, static_relative_path,
}

-- Open fails, Stat fails on the open file, or which kind of file it is.
pub data Opened : Type 0 where
  missing unreadable directory regular : Opened

abbrev pub opens : Opened → Bool
opens missing = false
opens unreadable = true
opens directory = true
opens regular = true

-- The last segment that is not empty.
unfoldable pub last_segment : List Bytes → Option Bytes
last_segment [] = none
last_segment (segment ∷ rest) = elim (last_segment rest) [
  | some last ↦ some last
  | none ↦ if is_nil segment then none else some segment
]

-- path.Base
unfoldable pub path_base : Bytes → Bytes
path_base name =
    if is_nil name
    then dot
    else elim (last_segment (segments name)) [ none ↦ slash | some base ↦ base ]

-- path.Join (relative, "index.html"), of a path without '..'
unfoldable pub join_index : Bytes → Bytes
join_index relative =
    join_slash (reverse (clean_segments [] (segments (relative ++ b'/' ∷ index_html))))

-- What follows the last '.' of a segment, that included: path.Ext of a path whose last one it is.
unfoldable pub segment_ext : Bytes → Option Bytes
segment_ext [] = none
segment_ext (c ∷ s) = elim (segment_ext s) [
  | some ext ↦ some ext
  | none ↦ if c == b'.' then some (c ∷ s) else none
]

-- The segment after the last '/'.
abbrev pub final_segment : Bytes → List Bytes → Bytes
final_segment segment [] = segment
final_segment segment (next ∷ rest) = final_segment next rest

-- path.Ext
unfoldable pub path_ext : Bytes → Bytes
path_ext name = elim (segment_ext (final_segment [] (segments name))) [ none ↦ [] | some ext ↦ ext ]

-- strings.TrimSuffix (s, "index.html")
unfoldable pub trim_index : Bytes → Bytes
trim_index [] = []
trim_index (c ∷ s) = if bytes_eq (c ∷ s) index_html then [] else c ∷ trim_index s

unfoldable pub static_server_path : Bytes → Bytes
static_server_path relative =
    if bytes_eq (path_base relative) index_html
    then slash ++ trim_index relative
    else slash ++ relative

module _ (fsys : Bytes → Opened) where
  -- The end of resolveStaticPath: the file of that name at the root.
  unfoldable pub resolve_base : Bytes → Option Bytes
  resolve_base relative =
      let base = path_base relative in
      if not (is_nil base)
        && not (bytes_eq base dot)
        && not (bytes_eq base slash)
        && opens (fsys base)
      then some base
      else none

  unfoldable pub resolve_static_path : Bytes → Option Bytes
  resolve_static_path relative = elim (fsys relative) [
    | missing ↦ resolve_base relative
    | unreadable ↦ resolve_base relative
    | directory ↦
        if opens (fsys (join_index relative))
        then some (join_index relative)
        else resolve_base relative
    | regular ↦ some relative
  ]

  -- The fallback of an application at the root: its index.html, for what looks like a page.
  unfoldable pub fallback : Bytes → Bytes → Option Bytes
  fallback mount relative =
      let ext = path_ext relative in
      if not (bytes_eq mount slash)
      then none
      else if not (is_nil ext) && not (bytes_eq ext (codes ".html"))
      then none
      else resolve_static_path index_html

  -- The name that is served, none where the handler returns ErrNotFound.
  unfoldable pub served_name : (Bytes → Bool) → Bytes → Bytes → Option Bytes
  served_name utf8_valid mount request_path =
      elim (static_relative_path utf8_valid mount request_path) [
        | none ↦ none
        | some relative ↦ elim (resolve_static_path relative) [
          | some name ↦ some name
          | none ↦ fallback mount relative
        ]
      ]

  -- The handler: the path of the request that it hands to the file server.
  unfoldable pub serve_static : (Bytes → Bool) → Bytes → Bytes → Option Bytes
  serve_static utf8_valid mount request_path = elim (served_name utf8_valid mount request_path) [
    | none ↦ none
    | some name ↦ some (static_server_path name)
  ]
