-- ===== src/Router/Engine/Files/Served.antt =====
-- The file that a mount serves is there, and lies below the root of its file system.
use goplusplus.Prelude.{
  ◌≡◌, refl, subst, Bool, true, none, some, if◌then◌else◌, Bool-cases, Option-cases, inl, inr,
  some-injective, none-some, not, ◌&&◌,
}
use goplusplus.Prelude.Bytes.{Bytes, bytes_eq, codes}
use goplusplus.Router.Engine.Files.{
  slash, dot, index_html, is_nil, segments, all_named, static_relative_path,
}
use goplusplus.Router.Engine.Files.Segments.{and_true}
use goplusplus.Router.Engine.Files.Serve.{
  Opened, missing, unreadable, directory, regular, opens, path_base, join_index, path_ext,
  static_server_path, resolve_base, resolve_static_path, fallback, served_name, serve_static,
}
use goplusplus.Router.Engine.Files.Named.{
  else_found, static_relative_path-named, index_html-named, path_base-named, join_index-named,
}

-- A name that is there, and all of whose segments are neither empty nor '.' nor '..'.
abbrev pub IsServable : (Bytes → Opened) → Bytes → Type 0
IsServable fsys name = (all_named (segments name) ≡ true) × (opens (fsys name) ≡ true)

module _ (fsys : Bytes → Opened) where
  resolve_base-IsServable :
      (relative name : Bytes)
      → all_named (segments relative) ≡ true
      → resolve_base fsys relative ≡ some name
      → IsServable fsys name
  unfolding resolve_base
  resolve_base-IsServable relative name named found =
      let base = path_base relative in
      let plain = not (is_nil base) && not (bytes_eq base dot) && not (bytes_eq base slash) in
      elim (Bool-cases (plain && opens (fsys base))) [
        | inl good ↦
            subst (IsServable fsys) (some-injective base name (rw (resolve_base, good) at found))
              (path_base-named relative named, (and_true plain (opens (fsys base)) good).1)
        | inr bad ↦ absurd (none-some none name refl (rw (resolve_base, bad) at found))
      ]

  resolve_opened :
      (o : Opened) (relative name : Bytes)
      → fsys relative ≡ o
      → all_named (segments relative) ≡ true
      → resolve_static_path fsys relative ≡ some name
      → IsServable fsys name
  unfolding resolve_static_path
  resolve_opened missing relative name is named found =
      resolve_base-IsServable relative name named (rw (resolve_static_path, is) at found)
  resolve_opened unreadable relative name is named found =
      resolve_base-IsServable relative name named (rw (resolve_static_path, is) at found)
  resolve_opened directory relative name is named found =
      elim (Bool-cases (opens (fsys (join_index relative)))) [
        | inl there ↦
            subst (IsServable fsys)
              (some-injective (join_index relative) name
                (rw (resolve_static_path, is, there) at found))
              (join_index-named relative named, there)
        | inr absent ↦
            resolve_base-IsServable relative name named
              (rw (resolve_static_path, is, absent) at found)
      ]
  resolve_opened regular relative name is named found =
      subst (IsServable fsys) (some-injective relative name (rw (resolve_static_path, is) at found))
        (named, rw is refl)

  resolve_static_path-IsServable :
      (relative name : Bytes)
      → all_named (segments relative) ≡ true
      → resolve_static_path fsys relative ≡ some name
      → IsServable fsys name
  resolve_static_path-IsServable relative name named found =
      resolve_opened (fsys relative) relative name refl named found

  fallback-IsServable :
      (mount relative name : Bytes)
      → fallback fsys mount relative ≡ some name
      → IsServable fsys name
  unfolding fallback
  fallback-IsServable mount relative name found =
      let ext = path_ext relative in
      let page = not (is_nil ext) && not (bytes_eq ext (codes ".html")) in
      let index = resolve_static_path fsys index_html in
      resolve_static_path-IsServable index_html name index_html-named (
        else_found page index name
          (else_found (not (bytes_eq mount slash)) (if page then none else index) name found))

  served_name-IsServable :
      (utf8_valid : Bytes → Bool) (mount request_path name : Bytes)
      → served_name fsys utf8_valid mount request_path ≡ some name
      → IsServable fsys name
  unfolding served_name
  served_name-IsServable utf8_valid mount request_path name found =
      elim (Option-cases (static_relative_path utf8_valid mount request_path)) [
        | inl outside ↦ absurd (none-some none name refl (rw (served_name, outside) at found))
        | inr (relative, inside) ↦ elim (Option-cases (resolve_static_path fsys relative)) [
          | inl absent ↦
              fallback-IsServable mount relative name (rw (served_name, inside, absent) at found)
          | inr (file, present) ↦
              subst (IsServable fsys)
                (some-injective file name (rw (served_name, inside, present) at found))
                (resolve_static_path-IsServable relative file
                  (static_relative_path-named utf8_valid mount request_path relative inside)
                  present)
        ]
      ]

  -- Whatever the mount and the request path, the name that the handler of a mount serves is in the file
  -- system, and none of its segments is empty, '.' or '..', so that it lies below the root. This holds
  -- for the file of the path, for the index.html of a directory, for the file of the same base at the
  -- root, and for the fallback. The file server is handed the path of that name.
  pub serve_static-IsServable :
      (utf8_valid : Bytes → Bool) (mount request_path url : Bytes)
      → serve_static fsys utf8_valid mount request_path ≡ some url
      → (name : Bytes) × (IsServable fsys name) × (static_server_path name ≡ url)
  unfolding serve_static
  serve_static-IsServable utf8_valid mount request_path url found =
      elim (Option-cases (served_name fsys utf8_valid mount request_path)) [
        | inl nothing ↦ absurd (none-some none url refl (rw (serve_static, nothing) at found))
        | inr (name, served) ↦ (
          name,
          served_name-IsServable utf8_valid mount request_path name served,
          some-injective (static_server_path name) url (rw (serve_static, served) at found),
        )
      ]
