-- ===== src/Router/Engine/Files/Relative.antt =====
-- The file that a request path names below its mount.
use goplusplus.Prelude.{
  ◌≡◌, refl, sym, ap, subst, ◌∙◌, Bool, true, false, List, [], ◌∷◌, none, some, if◌then◌else◌,
  arith, reverse, Bool-cases, inl, inr,
}
use goplusplus.Prelude.Bytes.{Bytes, bytes_eq, bytes_eq_iff, trim_prefix, strip_prefix}
use goplusplus.Prelude.Split.{split_on, AreParts, parts_on-AreParts, parts_on-join_on}
use goplusplus.Router.Engine.{is_empty}
use goplusplus.Router.Engine.Files.{
  slash, dot, index_html, is_nil, segments, join_slash, clean_segments, all_named, any_dots,
  static_file, named_file,
}
use goplusplus.Router.Engine.Files.Segments.{
  nonempty_segments, nonempty_segments-AreParts, all_named-nonempty_segments,
  reverse-clean_segments,
}

trim_prefix-slash : (s : Bytes) → trim_prefix (b'/' ∷ s) slash ≡ s
unfolding trim_prefix strip_prefix
trim_prefix-slash s = refl

-- Named segments, joined, are neither empty nor the name of the directory itself.
named-nonempty : (s : Bytes) → all_named (segments s) ≡ true → is_nil s ≡ false
unfolding split_on
named-nonempty [] named = absurd (ground (arith, named))
named-nonempty (c ∷ s) named = refl

named-dot : (s : Bytes) → all_named (segments s) ≡ true → bytes_eq s dot ≡ false
unfolding split_on bytes_eq
named-dot s named = elim (Bool-cases (bytes_eq s dot)) [
  | inr other ↦ other
  | inl same ↦ absurd (
      ground
        (arith, subst (λ t. all_named (segments t) ≡ true) ((bytes_eq_iff s dot).0 same) named))
]

joined-named :
    (ss : List Bytes)
    → AreParts b'/' ss
    → all_named ss ≡ true
    → is_empty ss ≡ false
    → all_named (segments (join_slash ss)) ≡ true
joined-named [] all named filled = absurd (ground (arith, filled))
joined-named (s ∷ ss) all named filled =
    subst (λ t. all_named t ≡ true) (sym (parts_on-join_on b'/' s ss all)) named

module _ (utf8_valid : Bytes → Bool) where
  named_file-join_slash :
      (names : List Bytes)
      → AreParts b'/' names
      → all_named names ≡ true
      → named_file utf8_valid (join_slash names) ≡ (
          if is_empty names
          then some index_html
          else if utf8_valid (join_slash names)
          then some (join_slash names)
          else none)
  unfolding named_file bytes_eq
  named_file-join_slash [] all named = refl
  named_file-join_slash (s ∷ ss) all named =
      let joined = joined-named (s ∷ ss) all named refl in
      let file = join_slash (s ∷ ss) in
      elim (Bool-cases (utf8_valid file)) [
        | inl valid ↦
            rw (named_file, named-dot file joined, named-nonempty file joined, valid, joined) refl
        | inr broken ↦
            rw (named_file, named-dot file joined, named-nonempty file joined, broken) refl
      ]

  -- What is left of a request path below its mount names a file when no segment of it is '.' or
  -- '..'. The file is index.html where there is no segment but empty ones; otherwise it is made of
  -- the segments that are not empty, in their order, if it is valid UTF-8, and none if not.
  pub static_file-segments :
      (rest : Bytes)
      → any_dots (segments (trim_prefix rest slash)) ≡ false
      → static_file utf8_valid rest ≡ (
          let names = nonempty_segments (segments (trim_prefix rest slash)) in
          if is_empty names
          then some index_html
          else if utf8_valid (join_slash names)
          then some (join_slash names)
          else none)
  unfolding static_file
  static_file-segments rest plain =
      let parts = segments (trim_prefix rest slash) in
      rw (static_file, plain)
        (ap (named_file utf8_valid) (
            trim_prefix-slash (join_slash (reverse (clean_segments [] parts)))
            ∙ ap join_slash (reverse-clean_segments parts plain))
          ∙ named_file-join_slash (nonempty_segments parts)
              (nonempty_segments-AreParts parts (parts_on-AreParts b'/' (trim_prefix rest slash)))
              (all_named-nonempty_segments parts plain))
