-- ===== src/Auth/Session/Tests.antt =====
-- A manager that holds two sessions, and users with and without a number.
use goplusplus.Prelude.{
  ◌≡◌, refl, ap, Bool, true, false, [], ◌∷◌, none, some, if◌then◌else◌, String, str_eq, arith, inl,
  length,
}
use goplusplus.Prelude.Bytes.{index_byte}
use goplusplus.Prelude.Int.{ℤ, pos, ◌+ℤ◌}
use goplusplus.Prelude.Map.{lookup, assign, delete}
use goplusplus.Auth.Identity.{UserClaims, TextOps, canonical_identity_id, canonical_user_claims}
use goplusplus.Auth.Identity.Canonical.{TextLaws}
use goplusplus.Auth.Session.{
  SessionConfig, SessionManager, all_safe, is_safe_cookie_name, check_config, new_session_manager,
  purge_expired_locked, store_session, create_session, claims_for_request, ttl_outside_bounds,
  cookie_name_invalid,
}
use goplusplus.Auth.Session.Cookies.{create_session-rotates, claims_for_request-create_session}
use goplusplus.Auth.Session.Bounded.{run_calls, create}

program : Unit {0}
unfolding index_byte ◌+ℤ◌ lookup assign delete canonical_identity_id canonical_user_claims all_safe
    is_safe_cookie_name check_config new_session_manager purge_expired_locked store_session
    claims_for_request
program = tt

-- One number that is read and written.
abbrev ops : TextOps
ops = record {
  byte_length = λ s. 5;
  has_control_or_space = λ s. str_eq s " ";
  trim_usr = λ s. if str_eq s "usr_42" then "42" else s;
  parse_int = λ s. if str_eq s "42" then some (pos 42) else none;
  format_int = λ n. "42";
}

forty_two : (b : Bool) (n : ℤ) → (if b then some (pos 42) else none) ≡ some n → pos 42 ≡ n
forty_two b n parsed = ground (arith, parsed)

laws : TextLaws ops
unfolding program
laws = record {
  format-filled = λ n. refl;
  format-short = λ n. omega arith;
  format-plain = λ n. refl;
  trim-format = λ n. refl;
  parse-format = λ digits n parsed. ap some (forty_two (str_eq digits "42") n parsed);
}

abbrev user : String → UserClaims
user id = record {
  id = id;
  subject = "";
  email = "a@example.com";
  roles = "admin" ∷ [];
  attributes = [];
  tenant_id = "";
}

abbrev config : SessionConfig
config = record {
  config_ttl = pos 600000000000;
  config_cookie_name = "";
  allow_insecure_http = false;
  config_same_site = pos 0;
  config_max_sessions = pos 2;
}

abbrev manager : SessionManager
manager = record {
  store = [];
  ttl = pos 600000000000;
  cookie_name = "gpp_session_id";
  secure = true;
  same_site = pos 2;
  max_sessions = pos 2;
}

short_ttl_refused :
    new_session_manager (record config { config_ttl = pos 1000 }) ≡ inl ttl_outside_bounds
unfolding program
short_ttl_refused = refl

bad_name_refused :
    new_session_manager (record config { config_cookie_name = "a b" }) ≡ inl cookie_name_invalid
unfolding program
bad_name_refused = refl

canonical_number :
    canonical_user_claims ops (user "usr_42") ≡ some (record (user "42") { subject = "42" })
unfolding program
canonical_number = refl

-- A third session finds no room before the first two expire.
no_room :
    length
      (run_calls ops manager (
        create (user "a") none (some "s1") (pos 0)
        ∷ create (user "b") none (some "s2") (pos 1)
        ∷ create (user "c") none (some "s3") (pos 2)
        ∷ [])).store
    ≡ 2
unfolding program
no_room = refl

abbrev signed_in : SessionManager
signed_in = (create_session ops manager (user "usr_42") none (some "s1") (pos 0)).0

create_session-rotates_example :
    ((claims_for_request ops
        (create_session ops signed_in (user "usr_42") (some "s1") (some "s2") (pos 3)).0
        (some "s1")
        (pos 4)).1
      ≡ none)
    × ((claims_for_request ops
          (create_session ops signed_in (user "usr_42") (some "s1") none (pos 3)).0
          (some "s1")
          (pos 4)).1
        ≡ none)
unfolding program
create_session-rotates_example =
    create_session-rotates ops signed_in (user "usr_42") (record (user "42") { subject = "42" })
      "s1" "s2" (pos 3) (pos 4) refl refl refl

claims_for_request-create_session_example :
    (let after = (create_session ops signed_in (user "usr_42") (some "s1") (some "s2") (pos 3)).0 in
      claims_for_request ops after (some "s2") (pos 9)
      ≡ (after, some (record (user "42") { subject = "42" })))
    × ((create_session ops signed_in (user "usr_42") (some "s1") (some "s2") (pos 3)).1
        ≡ some record {
          value = "s2";
          cookie_secure = signed_in.secure;
          expires = pos 3 +ℤ signed_in.ttl;
        })
unfolding program
claims_for_request-create_session_example =
    claims_for_request-create_session ops laws signed_in (user "usr_42")
      (record (user "42") { subject = "42" }) (some "s1") "s2" (pos 3) (pos 9) refl refl refl refl
