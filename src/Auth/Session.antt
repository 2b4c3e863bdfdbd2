-- ===== src/Auth/Session.antt =====
-- auth/session.go: RedisSessionManager, which keeps sessions in the memory of the process. A cookie of
-- the request is its value, or none. The identifier that crypto/rand gives is an argument, none where
-- reading it fails, and so is each reading of the clock.
pub mod Sessions
pub mod Cookies
pub mod Bounded
mod Tests
use goplusplus.Prelude.{
  ℕ, zero, ◌⊎◌, inl, inr, Bool, true, false, not, ◌&&◌, ◌||◌, List, [], ◌∷◌, Option, none, some,
  if◌then◌else◌, ltb, leb, ◌==◌, String, str_eq, length,
}
use goplusplus.Prelude.Int.{ℤ, pos, ltb_ℤ, leb_ℤ, ◌+ℤ◌}
use goplusplus.Prelude.Bytes.{codes, index_byte}
use goplusplus.Prelude.Map.{Map, lookup, assign, delete}
use goplusplus.Auth.Identity.{UserClaims, TextOps, canonical_user_claims, clone_user_claims}

pub record SessionRecord : Type 0 where
  pub claims : UserClaims
  pub expires_at : ℤ

pub record SessionConfig : Type 0 where
  pub config_ttl : ℤ
  pub config_cookie_name : String
  pub allow_insecure_http : Bool
  pub config_same_site : ℤ
  pub config_max_sessions : ℤ

pub record SessionManager : Type 0 where
  pub store : Map SessionRecord
  pub ttl : ℤ
  pub cookie_name : String
  pub secure : Bool
  pub same_site : ℤ
  pub max_sessions : ℤ

pub data SessionError : Type 0 where
  ttl_outside_bounds cookie_name_invalid same_site_invalid session_count_outside_bounds :
      SessionError

-- The cookie that CreateSession sets: its lifetime is in seconds.
pub record SessionCookie : Type 0 where
  pub value : String
  pub cookie_secure : Bool
  pub expires : ℤ

-- Minutes and days in nanoseconds.
abbrev pub five_minutes : ℤ
five_minutes = pos 300000000000

abbrev pub thirty_days : ℤ
thirty_days = pos 2592000000000000

abbrev pub name_or_default : String → String
name_or_default name = if str_eq name "" then "gpp_session_id" else name

-- A number of the configuration where 0 stands for the default.
abbrev pub or_default : ℤ → ℕ → ℤ
or_default (pos zero) d = pos d
or_default n d = n

-- "()<>@,;:\\"/[]?={}"
abbrev pub separators : List ℕ
separators =
    40 ∷ 41 ∷ 60 ∷ 62 ∷ 64 ∷ 44 ∷ 59 ∷ 58 ∷ 92 ∷ 34 ∷ 47 ∷ 91 ∷ 93 ∷ 63 ∷ 61 ∷ 123 ∷ 125 ∷ []

unfoldable pub all_safe : List ℕ → Bool
all_safe [] = true
all_safe (c ∷ cs) = elim (index_byte separators c) [
  | some i ↦ false
  | none ↦ not (leb c 32 || leb 127 c) && all_safe cs
]

-- A name with a character that is not ASCII is refused, so that a length in characters decides as the
-- one in bytes does.
unfoldable pub is_safe_cookie_name : String → Bool
is_safe_cookie_name name =
    if str_eq name "" || ltb 128 (length (codes name)) then false else all_safe (codes name)

unfoldable pub check_config : SessionConfig → Option SessionError
check_config config =
    let same_site = or_default config.config_same_site 2 in
    let max_sessions = or_default config.config_max_sessions 100000 in
    if ltb_ℤ config.config_ttl five_minutes || ltb_ℤ thirty_days config.config_ttl
    then some ttl_outside_bounds
    else if not (is_safe_cookie_name (name_or_default config.config_cookie_name))
    then some cookie_name_invalid
    else if ltb_ℤ same_site (pos 1) || ltb_ℤ (pos 4) same_site
    then some same_site_invalid
    else if ltb_ℤ max_sessions (pos 1) || ltb_ℤ (pos 1000000) max_sessions
    then some session_count_outside_bounds
    else none

unfoldable pub new_session_manager : SessionConfig → SessionError ⊎ SessionManager
new_session_manager config = elim (check_config config) [
  | some e ↦ inl e
  | none ↦ inr record {
    store = [];
    ttl = config.config_ttl;
    cookie_name = name_or_default config.config_cookie_name;
    secure = not config.allow_insecure_http;
    same_site = or_default config.config_same_site 2;
    max_sessions = or_default config.config_max_sessions 100000;
  }
]

-- The range over the store, which deletes what has expired.
unfoldable pub purge_expired_locked : Map SessionRecord → ℤ → Map SessionRecord
purge_expired_locked [] now = []
purge_expired_locked ((identifier, kept) ∷ rest) now =
    if ltb_ℤ now kept.expires_at
    then (identifier, kept) ∷ purge_expired_locked rest now
    else purge_expired_locked rest now

abbrev pub revoke_session : SessionManager → String → SessionManager
revoke_session manager identifier =
    if str_eq identifier ""
    then manager
    else record manager { store = delete manager.store identifier }

abbrev pub revoke_presented : SessionManager → Option String → SessionManager
revoke_presented manager none = manager
revoke_presented manager (some old) = revoke_session manager old

abbrev pub session_cookie : SessionManager → String → ℤ → SessionCookie
session_cookie manager identifier expires_at = record {
  value = identifier;
  cookie_secure = manager.secure;
  expires = expires_at;
}

-- The section of CreateSession that holds the lock. With no room left there is no session.
unfoldable pub store_session :
    SessionManager → UserClaims → String → ℤ → SessionManager × Option SessionCookie
store_session manager verified identifier now =
    let purged = record manager { store = purge_expired_locked manager.store now } in
    let expires_at = now +ℤ manager.ttl in
    let made : SessionRecord = record {
      claims = clone_user_claims verified;
      expires_at = expires_at;
    } in
    if leb_ℤ manager.max_sessions (pos (length purged.store)) then (purged, none) else (
      record purged { store = assign purged.store identifier made },
      some (session_cookie manager identifier expires_at),
    )

module _ (ops : TextOps) where
  abbrev pub create_session :
      SessionManager
      → UserClaims
      → (presented : Option String) → (identifier : Option String) → (now : ℤ)
      → SessionManager × Option SessionCookie
  create_session manager claims presented identifier now = elim (canonical_user_claims ops claims) [
    | none ↦ (manager, none)
    | some verified ↦ elim identifier [
      | none ↦ (revoke_presented manager presented, none)
      | some fresh ↦ store_session (revoke_presented manager presented) verified fresh now
    ]
  ]

  abbrev pub accepted_claims : UserClaims → Option UserClaims
  accepted_claims claims = elim (canonical_user_claims ops claims) [
    | none ↦ none
    | some verified ↦ some claims
  ]

  unfoldable pub claims_for_request :
      SessionManager → Option String → ℤ → SessionManager × Option UserClaims
  claims_for_request manager none now = (manager, none)
  claims_for_request manager (some cookie) now =
      if str_eq cookie "" then (manager, none) else elim (lookup manager.store cookie) [
        | none ↦ (manager, none)
        | some found ↦
            if not (ltb_ℤ now found.expires_at)
            then (revoke_session manager cookie, none)
            else (manager, accepted_claims (clone_user_claims found.claims))
      ]
