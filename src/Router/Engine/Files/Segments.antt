-- ===== src/Router/Engine/Files/Segments.antt =====
-- The segments of a path, split at '/' and joined again.
use mathlib.Core.List.{reverse_aux, reverse-reverse}
use goplusplus.Prelude.{
  not, ◌&&◌, ◌≡◌, refl, ap, ◌∙◌, Bool, true, false, ◌||◌, List, [], ◌∷◌, if◌then◌else◌, arith,
  reverse,
}
use goplusplus.Prelude.Bytes.{Bytes, bytes_eq}
use goplusplus.Prelude.Split.{AreParts}
use goplusplus.Router.Engine.Files.{
  dot, dot_dot, is_nil, is_dots, clean_segments, all_named, any_dots,
}

-- The segments that are not empty.
abbrev pub nonempty_segments : List Bytes → List Bytes
nonempty_segments [] = []
nonempty_segments (s ∷ ss) = if is_nil s then nonempty_segments ss else s ∷ nonempty_segments ss

pub nonempty_segments-AreParts :
    (ss : List Bytes) → AreParts b'/' ss → AreParts b'/' (nonempty_segments ss)
nonempty_segments-AreParts [] all = tt
nonempty_segments-AreParts ([] ∷ ss) all = nonempty_segments-AreParts ss all.1
nonempty_segments-AreParts ((c ∷ s) ∷ ss) all = (all.0, nonempty_segments-AreParts ss all.1)

or_false : (a b : Bool) → (a || b) ≡ false → (a ≡ false) × (b ≡ false)
or_false true b e = absurd (ground (arith, e))
or_false false b e = (refl, e)

pub all_named-nonempty_segments :
    (ss : List Bytes) → any_dots ss ≡ false → all_named (nonempty_segments ss) ≡ true
unfolding bytes_eq
all_named-nonempty_segments [] plain = refl
all_named-nonempty_segments ([] ∷ ss) plain = all_named-nonempty_segments ss plain
all_named-nonempty_segments ((c ∷ s) ∷ ss) plain =
    let (here, later) = or_false (is_dots (c ∷ s)) (any_dots ss) plain in
    rw here (all_named-nonempty_segments ss later)

-- Without '.' and '..', path.Clean leaves out the empty segments.
clean_segments-plain :
    (kept ss : List Bytes)
    → any_dots ss ≡ false
    → clean_segments kept ss ≡ reverse_aux (nonempty_segments ss) kept
unfolding clean_segments bytes_eq
clean_segments-plain [] [] plain = refl
clean_segments-plain (k ∷ ks) [] plain = refl
clean_segments-plain [] ([] ∷ ss) plain = clean_segments-plain [] ss plain
clean_segments-plain (k ∷ ks) ([] ∷ ss) plain = clean_segments-plain (k ∷ ks) ss plain
clean_segments-plain [] ((c ∷ s) ∷ ss) plain =
    let (here, later) = or_false (is_dots (c ∷ s)) (any_dots ss) plain in
    rw (clean_segments, here) (clean_segments-plain ((c ∷ s) ∷ []) ss later)
clean_segments-plain (k ∷ ks) ((c ∷ s) ∷ ss) plain =
    let (here, later) = or_false (is_dots (c ∷ s)) (any_dots ss) plain in
    let (one, two) = or_false (bytes_eq (c ∷ s) dot) (bytes_eq (c ∷ s) dot_dot) here in
    rw (clean_segments, one, two) (clean_segments-plain ((c ∷ s) ∷ k ∷ ks) ss later)

pub reverse-clean_segments :
    (ss : List Bytes) → any_dots ss ≡ false → reverse (clean_segments [] ss) ≡ nonempty_segments ss
reverse-clean_segments ss plain =
    ap reverse (clean_segments-plain [] ss plain) ∙ reverse-reverse (nonempty_segments ss)

pub and_true : (a b : Bool) → (a && b) ≡ true → (a ≡ true) × (b ≡ true)
and_true true b both = (refl, both)
and_true false b both = absurd (ground (arith, both))

pub named-plain : (ss : List Bytes) → all_named ss ≡ true → any_dots ss ≡ false
named-plain [] named = refl
named-plain (s ∷ ss) named =
    let (here, later) = and_true (not (is_nil s || is_dots s)) (all_named ss) named in
    ground (arith, here, named-plain ss later)

pub named-nonempty_segments : (ss : List Bytes) → all_named ss ≡ true → nonempty_segments ss ≡ ss
named-nonempty_segments [] named = refl
named-nonempty_segments ([] ∷ ss) named = absurd (ground (arith, named))
named-nonempty_segments ((c ∷ s) ∷ ss) named =
    let (here, later) = and_true (not (is_dots (c ∷ s))) (all_named ss) named in
    ap (◌∷◌ (c ∷ s)) (named-nonempty_segments ss later)
