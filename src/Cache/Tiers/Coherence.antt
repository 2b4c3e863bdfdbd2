-- ===== src/Cache/Tiers/Coherence.antt =====
-- The two levels agree: what the first holds, the second holds as well.
use text.Mathlib.Text.{starts_with}
use text.Mathlib.TextPositions.{eq_refl}
use goplusplus.Prelude.{
  ◌≡◌, ◌⊎◌, refl, sym, ◌∙◌, inl, inr, String, true, false, Option, none, some, str_eq, eq_iff,
  arith, Option-cases, Bool-cases, subst,
}
use goplusplus.Prelude.Int.{ℤ, pos, ltb_ℤ, leb_ℤ}
use goplusplus.Cache.Stores.{Store, Lawful, KeepsOthers, Read, hit, miss, failed}
use goplusplus.Cache.Tiers.{
  Got, found, absent, get_failed, read_l1, capped, join_errors, get_with_remaining_ttl, populate,
  get_from_l2, multi_get, multi_set, multi_delete, multi_invalidate_prefix,
}

Read-cases {ℓ} :
    {V E : Type ℓ} (r : Read V E)
    → ((v : V) × (ttl : ℤ) × (r ≡ hit v ttl)) ⊎ ((r ≡ miss) ⊎ ((e : E) × (r ≡ failed e)))
Read-cases (hit v ttl) = inl (v, ttl, refl)
Read-cases miss = inr (inl refl)
Read-cases (failed e) = inr (inr (e, refl))

module _ {ℓ} {S1 S2 V E : Type ℓ} (l1 : Store S1 V E) (l2 : Store S2 V E) (w1 : Lawful l1)
    (w2 : Lawful l2) where
  abbrev pub Coherent : S1 × S2 → Type ℓ
  Coherent s = (j : String) (v : V) → w1.view s.0 j ≡ some v → w2.view s.1 j ≡ some v

  -- What a read of a coherent store returns is what the second level holds.
  abbrev pub IsAnswer : S1 × S2 → String → Got V E → Type ℓ
  IsAnswer s key (found v) = w2.view s.1 key ≡ some v
  IsAnswer s key absent = w2.view s.1 key ≡ none
  IsAnswer s key (get_failed e) = Unit

  populate-IsAnswer :
      (s : S1 × S2) (key : String) (v : V) (remaining : ℤ) (s1 : S1) (s2 : S2)
      → w2.view s.1 key ≡ some v
      → IsAnswer s key (populate l1 l2 key v remaining s1 s2).1
  unfolding populate
  populate-IsAnswer s key v remaining s1 s2 held = elim (Bool-cases (ltb_ℤ (pos 0) remaining)) [
    | inr expired ↦ rw (expired, populate) held
    | inl lives ↦ elim (Option-cases (l1.set key v (capped remaining) s1).1) [
      | inl done ↦ rw (lives, populate, done) held
      | inr (e, err) ↦ rw (lives, populate, err) tt
    ]
  ]

  get_from_l2-IsAnswer :
      (s : S1 × S2) (key : String) (s1 : S1) → IsAnswer s key (get_from_l2 l1 l2 key s1 s.1).1
  unfolding get_from_l2 get_with_remaining_ttl
  get_from_l2-IsAnswer s key s1 = elim (Read-cases (l2.get_with_ttl key s.1).1) [
    | inl (v, ttl, read) ↦
        let held = w2.get_hit key s.1 v ttl read in
        elim (Bool-cases l2.has_ttl) [
          | inl known ↦
              rw (known, get_from_l2, read)
                (populate-IsAnswer s key v ttl s1 (l2.get_with_ttl key s.1).0 held)
          | inr unknown ↦
              rw (unknown, get_from_l2, read)
                (populate-IsAnswer s key v (pos 0) s1 (l2.get_with_ttl key s.1).0 held)
        ]
    | inr (inl read) ↦
        let held = w2.get_miss key s.1 read in
        elim (Bool-cases l2.has_ttl) [
          | inl known ↦ rw (known, get_from_l2, read) held
          | inr unknown ↦ rw (unknown, get_from_l2, read) held
        ]
    | inr (inr (e, read)) ↦ elim (Bool-cases l2.has_ttl) [
      | inl known ↦ rw (known, get_from_l2, read) tt
      | inr unknown ↦ rw (unknown, get_from_l2, read) tt
    ]
  ]

  -- At one time, a read from two levels of which the second holds all that the first does fails, or
  -- returns the value that the second level holds for the key, or finds nothing, and then the second
  -- level holds nothing for it.
  pub multi_get-IsAnswer :
      (key : String) (s : S1 × S2) → Coherent s → IsAnswer s key (multi_get l1 l2 key s).1
  unfolding multi_get
  multi_get-IsAnswer key s c = elim (Read-cases (l1.get_with_ttl key s.0).1) [
    | inl (v, ttl, read) ↦ rw (read, multi_get) (c key v (w1.get_hit key s.0 v ttl read))
    | inr (inl read) ↦ rw (read, multi_get) (get_from_l2-IsAnswer s key (l1.get_with_ttl key s.0).0)
    | inr (inr (e, read)) ↦ rw (read, multi_get) tt
  ]

  -- What a successful set comes to.
  multi_set_done :
      (key : String) (v : V) (ttl : ℤ) (s : S1 × S2)
      → (multi_set l1 l2 key v ttl s).1 ≡ none
      → ((l1.set key v ttl s.0).1 ≡ none)
        × ((l2.set key v ttl s.1).1 ≡ none)
        × ((multi_set l1 l2 key v ttl s).0 ≡ ((l1.set key v ttl s.0).0, (l2.set key v ttl s.1).0))
  unfolding multi_set
  multi_set_done key v ttl s done = elim (Option-cases (l2.set key v ttl s.1).1) [
    | inr (e, err) ↦ absurd (ground arith)
    | inl done2 ↦ elim (Option-cases (l1.set key v ttl s.0).1) [
      | inr (e, err) ↦ absurd (ground arith)
      | inl done1 ↦ (done1, done2, rw (done2, multi_set, done1) refl)
    ]
  ]

  sets-Coherent :
      KeepsOthers l2 w2
      → (key : String) (v : V) (ttl : ℤ) (s : S1 × S2) → Coherent s
      → (l1.set key v ttl s.0).1 ≡ none
      → (l2.set key v ttl s.1).1 ≡ none
      → Coherent ((l1.set key v ttl s.0).0, (l2.set key v ttl s.1).0)
  sets-Coherent keeps key v ttl s c done1 done2 j x held = elim (Bool-cases (str_eq key j)) [
    | inl same ↦
        subst
          (λ (i : String).
            w1.view (l1.set key v ttl s.0).0 i ≡ some x
            → w2.view (l2.set key v ttl s.1).0 i ≡ some x)
          ((eq_iff key j).0 same)
          (λ h. w2.set_self key v ttl s.1 done2 ∙ sym (w1.set_self key v ttl s.0 done1) ∙ h) held
    | inr other ↦ elim (w1.set_other key v ttl s.0 j done1 other) [
      | inl kept ↦ keeps key v ttl s.1 j done2 other ∙ c j x (sym kept ∙ held)
      | inr dropped ↦ absurd (ground (arith, dropped, held))
    ]
  ]

  -- A set that succeeds at both levels keeps them coherent, given that the second level evicts nothing.
  pub multi_set-Coherent :
      KeepsOthers l2 w2
      → (key : String) (v : V) (ttl : ℤ) (s : S1 × S2) → Coherent s
      → (multi_set l1 l2 key v ttl s).1 ≡ none
      → Coherent (multi_set l1 l2 key v ttl s).0
  multi_set-Coherent keeps key v ttl s c done =
      let (done1, done2, after) = multi_set_done key v ttl s done in
      subst Coherent (sym after) (sets-Coherent keeps key v ttl s c done1 done2)

  join_errors-none : (a b : Option E) → join_errors a b ≡ none → (a ≡ none) × (b ≡ none)
  unfolding join_errors
  join_errors-none none none h = (refl, refl)
  join_errors-none none (some e) h = absurd (ground arith)
  join_errors-none (some e) b h = absurd (ground arith)

  -- A delete that succeeds at both levels keeps them coherent, and then neither holds the key.
  pub multi_delete-Coherent :
      (key : String) (s : S1 × S2)
      → Coherent s
      → (multi_delete l1 l2 key s).1 ≡ none
      → Coherent (multi_delete l1 l2 key s).0
        × (w1.view (multi_delete l1 l2 key s).0.0 key ≡ none)
        × (w2.view (multi_delete l1 l2 key s).0.1 key ≡ none)
  unfolding multi_delete
  multi_delete-Coherent key s c done =
      let (done1, done2) = join_errors-none (l1.delete key s.0).1 (l2.delete key s.1).1 done in
      (
        λ j x held.
            ground (arith, w1.delete_view key s.0 j done1, w2.delete_view key s.1 j done2, c j x),
        rw (w1.delete_view key s.0 key done1, eq_refl key) refl,
        rw (w2.delete_view key s.1 key done2, eq_refl key) refl,
      )

  -- The invalidation of a prefix, where it succeeds at both levels, keeps them coherent, and then
  -- neither level holds a key that begins with it.
  pub multi_invalidate_prefix-Coherent :
      (prefix : String) (s : S1 × S2)
      → Coherent s
      → (multi_invalidate_prefix l1 l2 prefix s).1 ≡ none
      → Coherent (multi_invalidate_prefix l1 l2 prefix s).0
        × ((j : String)
            → starts_with j prefix ≡ true
            → (w1.view (multi_invalidate_prefix l1 l2 prefix s).0.0 j ≡ none)
              × (w2.view (multi_invalidate_prefix l1 l2 prefix s).0.1 j ≡ none))
  unfolding multi_invalidate_prefix
  multi_invalidate_prefix-Coherent prefix s c done =
      let (done1, done2) =
        join_errors-none (l1.invalidate_prefix prefix s.0).1 (l2.invalidate_prefix prefix s.1).1
          done in
      (
        λ j x held. ground (
          arith,
          w1.invalidate_view prefix s.0 j done1,
          w2.invalidate_view prefix s.1 j done2,
          c j x,
        ),
        λ j inside. (
          rw (w1.invalidate_view prefix s.0 j done1, inside) refl,
          rw (w2.invalidate_view prefix s.1 j done2, inside) refl,
        ),
      )

  multi_get_held :
      (key : String) (v : V) (s : S1 × S2)
      → w1.view s.0 key ≡ some v
      → ((multi_get l1 l2 key s).1 ≡ found v)
        ⊎ ((e : E) × ((multi_get l1 l2 key s).1 ≡ get_failed (read_l1 e)))
  unfolding multi_get
  multi_get_held key v s held = elim (Read-cases (l1.get_with_ttl key s.0).1) [
    | inl (x, ttl, read) ↦
        inl (rw (read, multi_get) (ground (arith, held, w1.get_hit key s.0 x ttl read)))
    | inr (inl read) ↦ absurd (ground (arith, held, w1.get_miss key s.0 read))
    | inr (inr (e, read)) ↦ inr (e, rw (read, multi_get) refl)
  ]

  -- Right after a set with a positive lifetime that succeeds at both levels, a read returns the value
  -- or fails at the first level.
  pub multi_get-multi_set :
      (key : String) (v : V) (ttl : ℤ) (s : S1 × S2)
      → leb_ℤ ttl (pos 0) ≡ false
      → (multi_set l1 l2 key v ttl s).1 ≡ none
      → ((multi_get l1 l2 key (multi_set l1 l2 key v ttl s).0).1 ≡ found v)
        ⊎ ((e : E) × ((multi_get l1 l2 key (multi_set l1 l2 key v ttl s).0).1
              ≡ get_failed (read_l1 e)))
  multi_get-multi_set key v ttl s positive done =
      let (done1, done2, after) = multi_set_done key v ttl s done in
      multi_get_held key v (multi_set l1 l2 key v ttl s).0 (
        subst (λ (t : S1 × S2). w1.view t.0 key ≡ some v) (sym after)
          (w1.set_self key v ttl s.0 done1 ∙ rw positive refl))
