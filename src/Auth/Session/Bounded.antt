-- ===== src/Auth/Session/Bounded.antt =====
-- The number of sessions, over any calls.
use goplusplus.Prelude.{not, List, [], ◌∷◌, Option, String}
use goplusplus.Prelude.Int.{ℤ}
use goplusplus.Auth.Identity.{UserClaims, TextOps}
use goplusplus.Auth.Session.{
  or_default, name_or_default, SessionConfig, SessionManager, revoke_session, create_session,
  claims_for_request,
}

abbrev made_by : SessionConfig → SessionManager
made_by config = record {
  store = [];
  ttl = config.config_ttl;
  cookie_name = name_or_default config.config_cookie_name;
  secure = not config.allow_insecure_http;
  same_site = or_default config.config_same_site 2;
  max_sessions = or_default config.config_max_sessions 100000;
}

-- A call of one of the methods.
pub data SessionCall : Type 0 where
  create : UserClaims → Option String → Option String → ℤ → SessionCall
  revoke : String → SessionCall
  request : Option String → ℤ → SessionCall

module _ (ops : TextOps) where
  abbrev pub run_call : SessionManager → SessionCall → SessionManager
  run_call manager (create claims presented identifier now) =
      (create_session ops manager claims presented identifier now).0
  run_call manager (revoke identifier) = revoke_session manager identifier
  run_call manager (request cookie now) = (claims_for_request ops manager cookie now).0

  abbrev pub run_calls : SessionManager → List SessionCall → SessionManager
  run_calls manager [] = manager
  run_calls manager (call ∷ calls) = run_calls (run_call manager call) calls
