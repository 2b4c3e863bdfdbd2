-- ===== src/Router/Engine/Files/Mounts.antt =====
-- The mounts of static files are kept with the longest ones first, so that the first mount that
-- matches is the longest.
use goplusplus.Prelude.{
  some-injective, ℕ, ◌≡◌, ◌≢◌, refl, sym, subst, ◌∙◌, ◌≤◌, Bool, List, [], ◌∷◌, ◌++◌, none, some,
  ltb, arith, length, Bool-cases, Option-cases, inl, inr,
}
use goplusplus.Prelude.Bytes.{Bytes}
use goplusplus.Router.Engine.{Engine, StaticRoute}
use goplusplus.Router.Engine.Files.{
  static_relative_path, insert_route, sort_routes, add_static_route, first_route,
}

module _ {ℓ} {H : Type ℓ} where
  abbrev pub Each : (StaticRoute H → Type 0) → List (StaticRoute H) → Type 0
  Each P [] = Unit
  Each P (route ∷ routes) = P route × Each P routes

  abbrev pub Shorter : ℕ → List (StaticRoute H) → Type 0
  Shorter n = Each (λ route. length route.mount ≤ n)

  abbrev pub LongestFirst : List (StaticRoute H) → Type 0
  LongestFirst [] = Unit
  LongestFirst (route ∷ routes) = Shorter (length route.mount) routes × LongestFirst routes

  Each-insert_route :
      (P : StaticRoute H → Type 0) (route : StaticRoute H) (routes : List (StaticRoute H))
      → P route
      → Each P routes
      → Each P (insert_route route routes)
  unfolding insert_route
  Each-insert_route P route [] p ps = (p, tt)
  Each-insert_route P route (other ∷ routes) p ps =
      elim (Bool-cases (ltb (length other.mount) (length route.mount))) [
        | inl longer ↦ rw (insert_route, longer) (p, ps)
        | inr kept ↦ rw (insert_route, kept) (ps.0, Each-insert_route P route routes p ps.1)
      ]

  insert_route-Each :
      (P : StaticRoute H → Type 0) (route : StaticRoute H) (routes : List (StaticRoute H))
      → Each P (insert_route route routes)
      → P route × Each P routes
  unfolding insert_route
  insert_route-Each P route [] ps = ps
  insert_route-Each P route (other ∷ routes) ps =
      elim (Bool-cases (ltb (length other.mount) (length route.mount))) [
        | inl longer ↦ rw (insert_route, longer) at ps
        | inr kept ↦
            let (p, rest) = insert_route-Each P route routes (rw (insert_route, kept) at ps).1 in
            (p, ((rw (insert_route, kept) at ps).0, rest))
      ]

  Shorter-trans :
      (m n : ℕ) (routes : List (StaticRoute H)) → m ≤ n → Shorter m routes → Shorter n routes
  Shorter-trans m n [] h ps = tt
  Shorter-trans m n (route ∷ routes) h ps = (omega (arith, ps.0), Shorter-trans m n routes h ps.1)

  insert_route-LongestFirst :
      (route : StaticRoute H) (routes : List (StaticRoute H))
      → LongestFirst routes
      → LongestFirst (insert_route route routes)
  unfolding insert_route
  insert_route-LongestFirst route [] ps = (tt, tt)
  insert_route-LongestFirst route (other ∷ routes) ps =
      elim (Bool-cases (ltb (length other.mount) (length route.mount))) [
        | inl longer ↦
            rw (insert_route, longer)
              (
                (
                  ground (arith, longer),
                  Shorter-trans (length other.mount) (length route.mount) routes
                      (ground (arith, longer)) ps.0,
                ),
                ps,
              )
        | inr kept ↦
            rw (insert_route, kept)
              (
                Each-insert_route (λ r. length r.mount ≤ length other.mount) route routes
                    (ground (arith, kept)) ps.0,
                insert_route-LongestFirst route routes ps.1,
              )
      ]

  sort_routes-LongestFirst :
      (sorted routes : List (StaticRoute H))
      → LongestFirst sorted
      → LongestFirst (sort_routes sorted routes)
  unfolding sort_routes
  sort_routes-LongestFirst sorted [] ps = ps
  sort_routes-LongestFirst sorted (route ∷ routes) ps =
      sort_routes-LongestFirst (insert_route route sorted) routes
        (insert_route-LongestFirst route sorted ps)

  sort_routes-Each :
      (P : StaticRoute H → Type 0) (sorted routes : List (StaticRoute H))
      → Each P (sort_routes sorted routes)
      → Each P sorted × Each P routes
  unfolding sort_routes
  sort_routes-Each P sorted [] ps = (ps, tt)
  sort_routes-Each P sorted (route ∷ routes) ps =
      let (inserted, rest) = sort_routes-Each P (insert_route route sorted) routes ps in
      let (p, kept) = insert_route-Each P route sorted inserted in (kept, (p, rest))

  Each-append :
      (P : StaticRoute H → Type 0) (xs ys : List (StaticRoute H))
      → Each P (xs ++ ys)
      → Each P xs × Each P ys
  Each-append P [] ys ps = (tt, ps)
  Each-append P (x ∷ xs) ys ps =
      let (front, back) = Each-append P xs ys ps.1 in ((ps.0, front), back)

  module _ (utf8_valid : Bytes → Bool) (request_path : Bytes) where
    abbrev pub Matches : StaticRoute H → Type 0
    Matches route = static_relative_path utf8_valid route.mount request_path ≢ none

    -- A mount that matches is no longer than n.
    abbrev pub Within : ℕ → StaticRoute H → Type 0
    Within n route = Matches route → length route.mount ≤ n

    Shorter-Within :
        (n : ℕ) (routes : List (StaticRoute H)) → Shorter n routes → Each (Within n) routes
    Shorter-Within n [] ps = tt
    Shorter-Within n (route ∷ routes) ps = ((λ matches. ps.0), Shorter-Within n routes ps.1)

    first_route-skip :
        (route : StaticRoute H) (routes : List (StaticRoute H))
        → static_relative_path utf8_valid route.mount request_path ≡ none
        → first_route utf8_valid (route ∷ routes) request_path
          ≡ first_route utf8_valid routes request_path
    unfolding first_route
    first_route-skip route routes missing = rw (first_route, missing) refl

    first_route-hit :
        (route : StaticRoute H) (routes : List (StaticRoute H)) (file : Bytes)
        → static_relative_path utf8_valid route.mount request_path ≡ some file
        → first_route utf8_valid (route ∷ routes) request_path ≡ some route
    unfolding first_route
    first_route-hit route routes file here = rw (first_route, here) refl

    Matches-some :
        (route : StaticRoute H) (file : Bytes)
        → static_relative_path utf8_valid route.mount request_path ≡ some file
        → Matches route
    Matches-some route file here e = ground (arith, here, e)

    first_route-longest :
        (routes : List (StaticRoute H)) (found : StaticRoute H)
        → LongestFirst routes
        → first_route utf8_valid routes request_path ≡ some found
        → Matches found × Each (Within (length found.mount)) routes
    unfolding first_route
    first_route-longest [] found sorted is_found = absurd (ground arith)
    first_route-longest (route ∷ routes) found sorted is_found =
        elim (Option-cases (static_relative_path utf8_valid route.mount request_path)) [
          | inl none_here ↦
              let (matches, longest) =
                first_route-longest routes found sorted.1
                  (sym (first_route-skip route routes none_here) ∙ is_found) in
              (matches, ((λ m. absurd (m none_here)), longest))
          | inr (file, here) ↦
              subst (λ r. Matches r × Each (Within (length r.mount)) (route ∷ routes))
                (some-injective route found
                  (sym (first_route-hit route routes file here) ∙ is_found))
                (
                  Matches-some route file here,
                  ((λ m. omega arith), Shorter-Within (length route.mount) routes sorted.0),
                )
        ]

    -- After a mount was added, the one that serves a request matches its path, and no mount, of those
    -- before or the new one, that matches the path is longer.
    pub add_static_route-longest :
        (engine : Engine H) (mount : Bytes) (handlers : List H) (found : StaticRoute H)
        → first_route utf8_valid (add_static_route engine mount handlers).static_routes request_path
          ≡ some found
        → Matches found
          × Each (Within (length found.mount)) engine.static_routes
          × Within (length found.mount) record { mount = mount; handlers = handlers }
    add_static_route-longest engine mount handlers found is_found =
        let new : StaticRoute H = record { mount = mount; handlers = handlers } in
        let all = engine.static_routes ++ new ∷ [] in
        let (matches, longest) =
          first_route-longest (sort_routes [] all) found (sort_routes-LongestFirst [] all tt)
            is_found in
        let (before, at_end) =
          Each-append (Within (length found.mount)) engine.static_routes (new ∷ [])
            (sort_routes-Each (Within (length found.mount)) [] all longest).1 in
        (matches, before, at_end.0)
