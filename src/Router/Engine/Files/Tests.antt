-- ===== src/Router/Engine/Files/Tests.antt =====
-- A file system with a page, a directory with its index, and a file at the root.
use goplusplus.Prelude.{◌≡◌, refl, true, Bool, [], ◌∷◌, Option, none, some, if◌then◌else◌}
use goplusplus.Prelude.Bytes.{Bytes, codes, bytes_eq, strip_prefix, has_prefix, trim_prefix}
use goplusplus.Prelude.Split.{split_on}
use goplusplus.Router.Engine.Files.{
  slash, index_html, clean_segments, named_file, static_file, static_relative_path,
}
use goplusplus.Router.Engine.Files.Serve.{
  Opened, missing, directory, regular, last_segment, path_base, join_index, segment_ext, path_ext,
  trim_index, static_server_path, resolve_base, resolve_static_path, fallback, served_name,
  serve_static,
}
use goplusplus.Router.Engine.Files.Served.{IsServable, serve_static-IsServable}
use goplusplus.Router.Engine.Files.Reached.{serve_static-regular}

program : Unit {0}
unfolding bytes_eq strip_prefix has_prefix trim_prefix split_on clean_segments named_file
    static_file static_relative_path last_segment path_base join_index segment_ext path_ext
    trim_index static_server_path resolve_base resolve_static_path fallback served_name serve_static
program = tt

unfoldable fsys : Bytes → Opened
unfolding bytes_eq
fsys name =
    if bytes_eq name (codes "css/a.css")
    then regular
    else if bytes_eq name (codes "docs")
    then directory
    else if bytes_eq name (codes "docs/index.html")
    then regular
    else if bytes_eq name (codes "logo.png")
    then regular
    else if bytes_eq name index_html
    then regular
    else missing

abbrev utf8 : Bytes → Bool
utf8 s = true

abbrev at_assets : Bytes → Option Bytes
at_assets request_path = serve_static fsys utf8 (codes "/assets") request_path

abbrev at_root : Bytes → Option Bytes
at_root request_path = serve_static fsys utf8 slash request_path

-- The page, the index of a directory, the file of the same base, and a file that is not there.
files_of_mount :
    (at_assets (codes "/assets/css/a.css") ≡ some (codes "/css/a.css"))
    × (at_assets (codes "/assets/docs/") ≡ some (codes "/docs/"))
    × (at_assets (codes "/assets/img/logo.png") ≡ some (codes "/logo.png"))
    × (at_assets (codes "/assets/none.png") ≡ none)
unfolding program fsys
files_of_mount = (refl, refl, refl, refl)

-- At the root what looks like a page falls back to the index, and a picture does not.
fallback_at_root :
    (at_root (codes "/account/settings") ≡ some slash)
    × (at_root (codes "/account/x.html") ≡ some slash)
    × (at_root (codes "/account/x.png") ≡ none)
unfolding program fsys
fallback_at_root = (refl, refl, refl)

serve_static-IsServable_example :
    (name : Bytes) × (IsServable fsys name) × (static_server_path name ≡ codes "/logo.png")
unfolding program fsys
serve_static-IsServable_example =
    serve_static-IsServable fsys utf8 (codes "/assets") (codes "/assets/img/logo.png")
      (codes "/logo.png") refl

page_at_its_address :
    at_assets (codes "/assets/css/a.css") ≡ some (static_server_path (codes "css/a.css"))
unfolding program fsys
page_at_its_address =
    serve_static-regular fsys utf8 (codes "/assets") (codes "css") (codes "a.css" ∷ []) refl
      ((refl, (refl, (refl, tt))), ((refl, (refl, (refl, (refl, (refl, tt))))), tt)) refl refl refl
