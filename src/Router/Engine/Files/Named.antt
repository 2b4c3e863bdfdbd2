-- ===== src/Router/Engine/Files/Named.antt =====
-- Names whose segments are neither empty nor '.' nor '..': what staticRelativePath gives, and what path.Base
-- and path.Join make of it.
use goplusplus.Prelude.{
  ◌≡◌, refl, sym, ap, subst, ◌∙◌, Bool, true, false, ℕ, ◌==◌, List, [], ◌∷◌, ◌++◌, Option, none,
  some, if◌then◌else◌, arith, Bool-cases, Option-cases, inl, inr, some-injective, none-some,
  reverse, not, ◌||◌, ◌&&◌,
}
use goplusplus.Prelude.Bytes.{Bytes, bytes_eq, trim_prefix, has_prefix}
use goplusplus.Prelude.Split.{
  split_on, IsPart, AreParts, parts_on-AreParts, parts_on-join_on, split_on-part,
}
use goplusplus.Router.Engine.Files.{
  slash, dot, index_html, is_nil, is_dots, segments, join_slash, clean_from_root, clean_segments,
  all_named, any_dots, valid_path, named_file, static_file, static_relative_path,
}
use goplusplus.Router.Engine.Files.Segments.{
  and_true, named-plain, named-nonempty_segments, reverse-clean_segments,
}
use goplusplus.Router.Engine.Files.Serve.{last_segment, path_base, join_index}

or_and : (u a b c : Bool) → (a || b) ≡ false → (u && (a || c)) ≡ true → c ≡ true
or_and u a b c neither both = ground (arith, neither, both)

pub else_found :
    (b : Bool) (found : Option Bytes) (name : Bytes)
    → (if b then none else found) ≡ some name
    → found ≡ some name
else_found true found name e = absurd (ground (arith, e))
else_found false found name e = e

module _ (utf8_valid : Bytes → Bool) where
  valid_path-named :
      (cleaned : Bytes)
      → (bytes_eq cleaned dot || is_nil cleaned) ≡ false
      → valid_path utf8_valid cleaned ≡ true
      → all_named (segments cleaned) ≡ true
  valid_path-named cleaned other valid =
      or_and (utf8_valid cleaned) (bytes_eq cleaned dot) (is_nil cleaned)
        (all_named (segments cleaned)) other valid

  named_file-named :
      (cleaned file : Bytes)
      → named_file utf8_valid cleaned ≡ some file
      → all_named (segments file) ≡ true
  unfolding named_file split_on bytes_eq
  named_file-named cleaned file found = elim (Bool-cases (bytes_eq cleaned dot || is_nil cleaned)) [
    | inl root ↦
        subst (λ t. all_named (segments t) ≡ true)
          (some-injective index_html file (rw (named_file, root) at found)) refl
    | inr other ↦ elim (Bool-cases (valid_path utf8_valid cleaned)) [
      | inl valid ↦
          subst (λ t. all_named (segments t) ≡ true)
            (some-injective cleaned file (rw (named_file, other, valid) at found))
            (valid_path-named cleaned other valid)
      | inr bad ↦ absurd (none-some none file refl (rw (named_file, other, bad) at found))
    ]
  ]

  pub static_relative_path-named :
      (mount request_path relative : Bytes)
      → static_relative_path utf8_valid mount request_path ≡ some relative
      → all_named (segments relative) ≡ true
  unfolding static_relative_path static_file
  static_relative_path-named mount request_path relative found =
      let rest = if bytes_eq mount slash then request_path else trim_prefix request_path mount in
      let parts = segments (trim_prefix rest slash) in
      let cleaned = trim_prefix (clean_from_root (trim_prefix rest slash)) slash in
      named_file-named cleaned relative (
        else_found (any_dots parts) (named_file utf8_valid cleaned) relative (
          else_found
            (not (bytes_eq mount slash)
              && not (bytes_eq request_path mount)
              && not (has_prefix request_path (mount ++ slash)))
            (static_file utf8_valid rest) relative found))

named_alone :
    (s : Bytes) → IsPart b'/' s → all_named (s ∷ []) ≡ true → all_named (segments s) ≡ true
named_alone s part named =
    subst (λ (r : Bytes × List Bytes). all_named (r.0 ∷ r.1) ≡ true)
      (sym (split_on-part b'/' s part)) named

root_not_named : ¬ (all_named (segments []) ≡ true)
unfolding split_on
root_not_named named = absurd (ground (arith, named))

last_segment-named :
    (ss : List Bytes) (base : Bytes)
    → AreParts b'/' ss
    → all_named ss ≡ true
    → last_segment ss ≡ some base
    → IsPart b'/' base × (all_named (base ∷ []) ≡ true)
unfolding last_segment
last_segment-named [] base parts named found = absurd (ground (arith, found))
last_segment-named (s ∷ ss) base parts named found =
    let (here, later) = and_true (not (is_nil s || is_dots s)) (all_named ss) named in
    elim (Option-cases (last_segment ss)) [
      | inr (last, at_last) ↦
          last_segment-named ss base parts.1 later (at_last ∙ (rw (last_segment, at_last) at found))
      | inl last ↦
          let same : s ≡ base =
            some-injective s base
              (else_found (is_nil s) (some s) base (rw (last_segment, last) at found)) in
          subst (λ b. IsPart b'/' b × (all_named (b ∷ []) ≡ true)) same (parts.0, rw here refl)
    ]

last_segment-found :
    (s : Bytes) (ss : List Bytes)
    → all_named (s ∷ ss) ≡ true
    → (base : Bytes) × (last_segment (s ∷ ss) ≡ some base)
unfolding last_segment
last_segment-found s ss named =
    let (here, later) = and_true (not (is_nil s || is_dots s)) (all_named ss) named in
    elim (Option-cases (last_segment ss)) [
      | inr (last, at_last) ↦ (last, rw (last_segment, at_last) refl)
      | inl last ↦ (s, rw (last_segment, last) (ground (arith, here)))
    ]

abbrev extend : ℕ → List Bytes → List Bytes
extend c [] = []
extend c (s ∷ ss) = (c ∷ s) ∷ ss

parts_on-append : (s t : Bytes) → segments (s ++ b'/' ∷ t) ≡ segments s ++ segments t
unfolding split_on
parts_on-append [] t = refl
parts_on-append (c ∷ s) t = elim (Bool-cases (c == b'/')) [
  | inl cut ↦ rw (split_on, cut) (ap (◌∷◌ []) (parts_on-append s t))
  | inr kept ↦ rw (split_on, kept) (ap (extend c) (parts_on-append s t))
]

all_named-append :
    (ss ts : List Bytes) → all_named ss ≡ true → all_named ts ≡ true → all_named (ss ++ ts) ≡ true
all_named-append [] ts one two = two
all_named-append (s ∷ ss) ts one two =
    let (here, later) = and_true (not (is_nil s || is_dots s)) (all_named ss) one in
    rw here (all_named-append ss ts later two)

pub index_html-named : all_named (segments index_html) ≡ true
unfolding split_on bytes_eq
index_html-named = refl

-- path.Join leaves named segments as they are.
pub join_index-named :
    (relative : Bytes)
    → all_named (segments relative) ≡ true
    → all_named (segments (join_index relative)) ≡ true
unfolding join_index
join_index-named relative named =
    let path = relative ++ b'/' ∷ index_html in
    let path_named : all_named (segments path) ≡ true =
      subst (λ ss. all_named ss ≡ true) (sym (parts_on-append relative index_html))
        (all_named-append (segments relative) (segments index_html) named index_html-named) in
    let cleaned : reverse (clean_segments [] (segments path)) ≡ segments path =
      reverse-clean_segments (segments path) (named-plain (segments path) path_named)
      ∙ named-nonempty_segments (segments path) path_named in
    let parts =
      parts_on-join_on b'/' (split_on b'/' path).0 (split_on b'/' path).1
        (parts_on-AreParts b'/' path) in
    subst (λ ss. all_named (segments (join_slash ss)) ≡ true) (sym cleaned)
      (subst (λ ss. all_named ss ≡ true) (sym parts) path_named)

pub path_base-named :
    (relative : Bytes)
    → all_named (segments relative) ≡ true
    → all_named (segments (path_base relative)) ≡ true
unfolding path_base
path_base-named [] named = absurd (root_not_named named)
path_base-named (c ∷ s) named =
    let (first, rest) = split_on b'/' (c ∷ s) in
    let (base, at_base) = last_segment-found first rest named in
    let (part, base_named) =
      last_segment-named (first ∷ rest) base (parts_on-AreParts b'/' (c ∷ s)) named at_base in
    rw (path_base, at_base) (named_alone base part base_named)
