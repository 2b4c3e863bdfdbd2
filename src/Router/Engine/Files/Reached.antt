-- ===== src/Router/Engine/Files/Reached.antt =====
-- A file below a mount is served at its own address.
use goplusplus.Prelude.{
  ◌≡◌, refl, sym, ap, subst, if◌then◌else◌, none, not, ◌&&◌, Option, Bool, ◌∙◌, true, false, List,
  [], ◌∷◌, ◌++◌, some, arith,
}
use goplusplus.Prelude.Bytes.{Bytes, bytes_eq, strip_prefix, has_prefix, trim_prefix}
use goplusplus.Prelude.Split.{AreParts, parts_on-join_on}
use goplusplus.Router.Engine.{is_empty}
use goplusplus.Router.Engine.Files.{
  slash, index_html, any_dots, join_slash, segments, all_named, static_file, static_relative_path,
}
use goplusplus.Router.Engine.Files.Segments.{
  nonempty_segments, named-plain, named-nonempty_segments,
}
use goplusplus.Router.Engine.Files.Relative.{static_file-segments}
use goplusplus.Router.Engine.Files.Serve.{
  Opened, regular, static_server_path, resolve_static_path, served_name, serve_static,
}

strip_prefix-append : (s t : Bytes) → strip_prefix s (s ++ t) ≡ some t
unfolding strip_prefix
strip_prefix-append [] t = refl
strip_prefix-append (c ∷ s) t = ground (arith, strip_prefix-append s t)

and_false : (b : Bool) → (b && false) ≡ false
and_false true = refl
and_false false = refl

has_prefix-slash : (s t : Bytes) → has_prefix (s ++ b'/' ∷ t) (s ++ slash) ≡ true
unfolding has_prefix strip_prefix
has_prefix-slash [] t = refl
has_prefix-slash (c ∷ s) t = ground (arith, has_prefix-slash s t)

module _ (fsys : Bytes → Opened) (utf8_valid : Bytes → Bool) where
  -- What static_file-segments says of the segments that are left.
  abbrev chosen : List Bytes → Option Bytes
  chosen names =
      if is_empty names
      then some index_html
      else if utf8_valid (join_slash names)
      then some (join_slash names)
      else none

  static_file-names :
      (name : Bytes) (names : List Bytes)
      → AreParts b'/' (name ∷ names)
      → all_named (name ∷ names) ≡ true
      → utf8_valid (join_slash (name ∷ names)) ≡ true
      → static_file utf8_valid (b'/' ∷ join_slash (name ∷ names)) ≡ some (join_slash (name ∷ names))
  unfolding trim_prefix strip_prefix
  static_file-names name names parts named valid =
      let file = join_slash (name ∷ names) in
      let split = parts_on-join_on b'/' name names parts in
      let plain =
        subst (λ ss. any_dots ss ≡ false) (sym split) (named-plain (name ∷ names) named) in
      let kept : nonempty_segments (segments file) ≡ name ∷ names =
        ap nonempty_segments split ∙ named-nonempty_segments (name ∷ names) named in
      static_file-segments utf8_valid (b'/' ∷ file) plain ∙ ap chosen kept ∙ rw valid refl

  static_relative_path-names :
      (mount : Bytes) (name : Bytes) (names : List Bytes)
      → bytes_eq mount slash ≡ false
      → AreParts b'/' (name ∷ names)
      → all_named (name ∷ names) ≡ true
      → utf8_valid (join_slash (name ∷ names)) ≡ true
      → static_relative_path utf8_valid mount (mount ++ b'/' ∷ join_slash (name ∷ names))
        ≡ some (join_slash (name ∷ names))
  unfolding static_relative_path has_prefix trim_prefix
  static_relative_path-names mount name names other parts named valid =
      let rest = b'/' ∷ join_slash (name ∷ names) in
      rw
        (
          static_relative_path,
          other,
          has_prefix-slash mount (join_slash (name ∷ names)),
          trim_prefix,
          strip_prefix-append mount rest,
          and_false (not (bytes_eq (mount ++ rest) mount)),
        )
        (static_file-names name names parts named valid)

  -- A regular file of the file system, whose name is valid UTF-8 and made of segments that are neither
  -- empty nor '.' nor '..', is the file that a mount below the root serves for the address of the mount
  -- followed by '/' and that name: the file server is handed the path of that name.
  pub serve_static-regular :
      (mount : Bytes) (name : Bytes) (names : List Bytes)
      → bytes_eq mount slash ≡ false
      → AreParts b'/' (name ∷ names)
      → all_named (name ∷ names) ≡ true
      → utf8_valid (join_slash (name ∷ names)) ≡ true
      → fsys (join_slash (name ∷ names)) ≡ regular
      → serve_static fsys utf8_valid mount (mount ++ b'/' ∷ join_slash (name ∷ names))
        ≡ some (static_server_path (join_slash (name ∷ names)))
  unfolding serve_static served_name resolve_static_path
  serve_static-regular mount name names other parts named valid present =
      rw
        (
          serve_static,
          served_name,
          static_relative_path-names mount name names other parts named valid,
          resolve_static_path,
          present,
        )
        refl
