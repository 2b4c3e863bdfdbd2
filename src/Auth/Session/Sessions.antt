-- ===== src/Auth/Session/Sessions.antt =====
-- The store of the sessions: what storing and revoking leave in it.
use goplusplus.Prelude.{
  suc, ◌≡◌, refl, ◌≤◌, Bool, true, false, [], ◌∷◌, Option, none, some, String, str_eq, arith,
  length, Bool-cases, inl, inr,
}
use goplusplus.Prelude.Int.{ℤ, pos, leb_ℤ, ◌+ℤ◌, ◌≤ℤ◌}
use goplusplus.Prelude.Map.{
  Map, lookup, assign, lookup-assign, lookup-delete_self, length-delete-le,
}
use goplusplus.Auth.Identity.{UserClaims}
use goplusplus.Auth.Session.{
  SessionRecord, SessionManager, purge_expired_locked, revoke_session, revoke_presented,
  store_session,
}

purge_expired_locked-none :
    (m : Map SessionRecord) (now : ℤ) (k : String)
    → lookup m k ≡ none
    → lookup (purge_expired_locked m now) k ≡ none
unfolding lookup purge_expired_locked
purge_expired_locked-none [] now k absent = refl
purge_expired_locked-none ((identifier, kept) ∷ rest) now k absent =
    ground (arith, absent, purge_expired_locked-none rest now k)

length-purge_expired_locked :
    (m : Map SessionRecord) (now : ℤ) → length (purge_expired_locked m now) ≤ length m
unfolding purge_expired_locked
length-purge_expired_locked [] now = omega arith
length-purge_expired_locked ((identifier, kept) ∷ rest) now =
    ground (arith, length-purge_expired_locked rest now)

length-assign_le :
    (m : Map SessionRecord) (k : String) (v : SessionRecord)
    → length (assign m k v) ≤ suc (length m)
unfolding assign
length-assign_le [] k v = omega arith
length-assign_le ((key, old) ∷ rest) k v = ground (arith, length-assign_le rest k v)

-- No more sessions than the configured number.
abbrev pub IsBounded : SessionManager → Type 0
IsBounded manager = pos (length manager.store) ≤ℤ manager.max_sessions

-- No room, even without the sessions that have expired.
abbrev pub full : SessionManager → ℤ → Bool
full manager now =
    leb_ℤ manager.max_sessions (pos (length (purge_expired_locked manager.store now)))

pub store_session-full :
    (manager : SessionManager) (verified : UserClaims) (identifier : String) (now : ℤ)
    → full manager now ≡ true
    → store_session manager verified identifier now
      ≡ (record manager { store = purge_expired_locked manager.store now }, none)
unfolding store_session
store_session-full manager verified identifier now no_room = rw no_room refl

pub store_session-room :
    (manager : SessionManager) (verified : UserClaims) (identifier : String) (now : ℤ)
    → full manager now ≡ false
    → store_session manager verified identifier now ≡ (
      record manager {
        store =
            assign
              (purge_expired_locked manager.store now)
              identifier
              record { claims = verified; expires_at = now +ℤ manager.ttl };
      },
      some record {
        value = identifier;
        cookie_secure = manager.secure;
        expires = now +ℤ manager.ttl;
      },
    )
unfolding store_session
store_session-room manager verified identifier now room = rw room refl

pub store_session-IsBounded :
    (manager : SessionManager) (verified : UserClaims) (identifier : String) (now : ℤ)
    → IsBounded manager
    → IsBounded (store_session manager verified identifier now).0
store_session-IsBounded manager verified identifier now bounded =
    let purged = purge_expired_locked manager.store now in
    elim (Bool-cases (full manager now)) [
      | inl no_room ↦
          rw (store_session-full manager verified identifier now no_room)
            (omega (arith, bounded, length-purge_expired_locked manager.store now))
      | inr room ↦ rw (store_session-room manager verified identifier now room) (
          ground (
            arith,
            room,
            length-assign_le purged identifier
                record { claims = verified; expires_at = now +ℤ manager.ttl },
          ))
    ]

pub revoke_session-IsBounded :
    (manager : SessionManager) (identifier : String)
    → IsBounded manager
    → IsBounded (revoke_session manager identifier)
revoke_session-IsBounded manager identifier bounded = elim (Bool-cases (str_eq identifier "")) [
  | inl empty ↦ rw (revoke_session, empty) bounded
  | inr named ↦
      rw (revoke_session, named) (omega (arith, bounded, length-delete-le manager.store identifier))
]

pub revoke_presented-IsBounded :
    (manager : SessionManager) (presented : Option String)
    → IsBounded manager
    → IsBounded (revoke_presented manager presented)
revoke_presented-IsBounded manager none bounded = bounded
revoke_presented-IsBounded manager (some old) bounded = revoke_session-IsBounded manager old bounded

pub revoke_presented-store :
    (manager : SessionManager) (presented : Option String)
    → revoke_presented manager presented
      ≡ record manager { store = (revoke_presented manager presented).store }
revoke_presented-store manager none = refl
revoke_presented-store manager (some old) = elim (Bool-cases (str_eq old "")) [
  | inl empty ↦ rw (revoke_session, empty) refl
  | inr named ↦ rw (revoke_session, named) refl
]

-- A presented cookie is in the store no more, whatever is stored next under another identifier.
pub revoke_presented-lookup :
    (manager : SessionManager) (old : String)
    → str_eq old "" ≡ false
    → lookup (revoke_presented manager (some old)).store old ≡ none
revoke_presented-lookup manager old named =
    rw (revoke_session, named) (lookup-delete_self manager.store old)

pub store_session-lookup_other :
    (manager : SessionManager) (verified : UserClaims) (identifier : String) (now : ℤ)
    (old : String)
    → str_eq identifier old ≡ false
    → lookup manager.store old ≡ none
    → lookup (store_session manager verified identifier now).0.store old ≡ none
store_session-lookup_other manager verified identifier now old other absent =
    elim (Bool-cases (full manager now)) [
      | inl no_room ↦
          rw (store_session-full manager verified identifier now no_room)
            (purge_expired_locked-none manager.store now old absent)
      | inr room ↦
          rw (store_session-room manager verified identifier now room, lookup-assign, other)
            (purge_expired_locked-none manager.store now old absent)
    ]
