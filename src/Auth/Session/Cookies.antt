-- ===== src/Auth/Session/Cookies.antt =====
-- What the cookie of a session gives, and what an older one gives.
use goplusplus.Prelude.{
  ◌≡◌, refl, sym, ap, subst, ◌∙◌, true, false, Option, none, some, String, str_eq, Bool-cases, inl,
  inr,
}
use goplusplus.Prelude.Int.{ℤ, ltb_ℤ, ◌+ℤ◌}
use goplusplus.Prelude.Map.{lookup, assign, lookup-assign_self}
use goplusplus.Auth.Identity.{UserClaims, TextOps, canonical_user_claims}
use goplusplus.Auth.Identity.Canonical.{TextLaws, canonical_user_claims-canonical}
use goplusplus.Auth.Session.{
  SessionRecord, SessionManager, purge_expired_locked, revoke_presented, store_session,
  create_session, accepted_claims, claims_for_request,
}
use goplusplus.Auth.Session.Sessions.{
  full, store_session-room, revoke_presented-store, revoke_presented-lookup,
  store_session-lookup_other,
}

module _ (ops : TextOps) where
  claims_for_request-absent :
      (manager : SessionManager) (cookie : String) (now : ℤ)
      → lookup manager.store cookie ≡ none
      → claims_for_request ops manager (some cookie) now ≡ (manager, none)
  unfolding claims_for_request
  claims_for_request-absent manager cookie now absent = elim (Bool-cases (str_eq cookie "")) [
    | inl empty ↦ rw (claims_for_request, empty) refl
    | inr named ↦ rw (claims_for_request, named, absent) refl
  ]

  -- A request that presents a session cookie and is given a new session with another identifier, or
  -- none because the random source failed or there is no room, leaves the old cookie useless.
  pub create_session-rotates :
      (manager : SessionManager) (claims verified : UserClaims) (old fresh : String) (now later : ℤ)
      → canonical_user_claims ops claims ≡ some verified
      → str_eq old "" ≡ false
      → str_eq fresh old ≡ false
      → ((claims_for_request ops
            (create_session ops manager claims (some old) (some fresh) now).0
            (some old)
            later).1
          ≡ none)
        × ((claims_for_request ops
              (create_session ops manager claims (some old) none now).0
              (some old)
              later).1
            ≡ none)
  create_session-rotates manager claims verified old fresh now later accepted named other =
      let revoked = revoke_presented manager (some old) in
      let gone = revoke_presented-lookup manager old named in
      rw (create_session, accepted)
        (
          ap (λ p. p.1)
              (claims_for_request-absent (store_session revoked verified fresh now).0 old later
                (store_session-lookup_other revoked verified fresh now old other gone)),
          ap (λ p. p.1) (claims_for_request-absent revoked old later gone),
        )

  -- A cookie that finds a session.
  claims_for_request-found :
      (manager : SessionManager) (cookie : String) (now : ℤ) (found : SessionRecord)
      → str_eq cookie "" ≡ false
      → lookup manager.store cookie ≡ some found
      → ltb_ℤ now found.expires_at ≡ true
      → claims_for_request ops manager (some cookie) now
        ≡ (manager, accepted_claims ops found.claims)
  unfolding claims_for_request
  claims_for_request-found manager cookie now found named present valid =
      rw (claims_for_request, named, present, valid) refl

module _ (ops : TextOps) (laws : TextLaws ops) where
  -- Given the documented laws of strconv and strings (TextLaws), when the claims have a canonical form
  -- and there is room once the expired sessions are gone, CreateSession makes a session. Its cookie
  -- then gives these claims in canonical form, at every time before the lifetime is over, and the
  -- request changes no session.
  pub claims_for_request-create_session :
      (manager : SessionManager) (claims verified : UserClaims) (presented : Option String)
      (fresh : String) (now later : ℤ)
      → canonical_user_claims ops claims ≡ some verified
      → str_eq fresh "" ≡ false
      → full (revoke_presented manager presented) now ≡ false
      → ltb_ℤ later (now +ℤ manager.ttl) ≡ true
      → (let after = (create_session ops manager claims presented (some fresh) now).0 in
          claims_for_request ops after (some fresh) later ≡ (after, some verified))
        × ((create_session ops manager claims presented (some fresh) now).1
            ≡ some record {
              value = fresh;
              cookie_secure = manager.secure;
              expires = now +ℤ manager.ttl;
            })
  claims_for_request-create_session manager claims verified presented fresh now later accepted named
        room valid =
      let revoked = revoke_presented manager presented in
      let shape = revoke_presented-store manager presented in
      let made : SessionRecord = record { claims = verified; expires_at = now +ℤ revoked.ttl } in
      let stored : SessionManager = record revoked {
        store = assign (purge_expired_locked revoked.store now) fresh made;
      } in
      let created : create_session ops manager claims presented (some fresh) now ≡ (
        stored,
        some record { value = fresh; cookie_secure = revoked.secure; expires = now +ℤ revoked.ttl },
      ) =
        rw (create_session, accepted) (store_session-room revoked verified fresh now room) in
      rw created (
        claims_for_request-found ops stored fresh later made named
              (lookup-assign_self (purge_expired_locked revoked.store now) fresh made)
              (subst (λ m. ltb_ℤ later (now +ℤ m.ttl) ≡ true) (sym shape) valid)
            ∙ ap (λ c. (stored, c))
                (rw
                  (
                    accepted_claims,
                    canonical_user_claims-canonical ops laws claims verified accepted,
                  )
                  refl),
        ap (λ m. some record { value = fresh; cookie_secure = m.secure; expires = now +ℤ m.ttl })
            shape,
      )
