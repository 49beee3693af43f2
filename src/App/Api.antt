-- ===== src/App/Api.antt =====
-- internal/app/app.go: `runAPI`. A server is what its handlers are given and the routes that it
-- mounts; the handlers of core are not under this repository.
use ticketowl.Base.{
  String, Action, List, Bool, if◌then◌else◌, ◌∷◌, ◌>>=◌, Option, true, str_eq, not, [], ◌&&◌,
  or_raise, ignore, pure, ◌++◌, failed, none, false, raise, some,
}
use ticketowl.App.Settings.{Config, Platform}
use ticketowl.Seed.{Site}
use ticketowl.Base.Int.{ℤ}

-- `srv.Router`, or `srv.APIRouter`, whose requests core authenticates
pub data Router : Type 0 where
  router api_router : Router

pub data Method : Type 0 where
  get post put mount : Method

pub record Route : Type 0 where
  pub mounted_on : Router
  pub method : Method
  pub path : String

pub record ApiServer : Type 0 where
  pub session_secret : String
  pub session_max_age : ℤ
  pub has_oidc : Bool
  pub managed : Bool
  pub routes : List Route

abbrev pub route : Router → Method → String → Route
route on method path = record { mounted_on = on; method = method; path = path }

-- the secret of the sessions
unfoldable pub session_secret_of : Platform → Config → Action Site String
session_secret_of p cfg =
    if str_eq cfg.session_secret ""
    then if cfg.dev_mode then pure p.generate_dev_secret else raise failed
    else pure cfg.session_secret

-- whether there is an authenticator of OIDC
unfoldable pub oidc_of : Platform → Config → Action Site Bool
oidc_of p cfg =
    if not (str_eq cfg.oidc_issuer_url "") && not (str_eq cfg.oidc_client_id "")
    then (p.new_oidc_authenticator cfg.oidc_issuer_url cfg.oidc_client_id >>= λ _. pure true)
    else pure false

abbrev pub login_routes : List Route
login_routes =
    route router post "/auth/local"
    ∷ route router post "/auth/change-password"
    ∷ route router get "/auth/config"
    ∷ route router post "/auth/login"
    ∷ route router get "/auth/me"
    ∷ route router post "/auth/logout"
    ∷ []

abbrev pub oidc_routes : Bool → Config → List Route
oidc_routes has_oidc cfg =
    if has_oidc && not (str_eq cfg.oidc_client_secret "")
    then route router get "/auth/oidc/login" ∷ route router get "/auth/oidc/callback" ∷ []
    else []

abbrev pub api_routes : List Route
api_routes =
    route router get "/status"
    ∷ route api_router get "/status"
    ∷ route api_router mount "/admin"
    ∷ route api_router mount "/admin/sla-policies"
    ∷ route api_router mount "/sla/policies"
    ∷ route api_router get "/admin/oidc/config"
    ∷ route api_router put "/admin/oidc/config"
    ∷ route api_router post "/admin/oidc/test"
    ∷ route api_router post "/admin/local-admin/reset"
    ∷ route api_router mount "/tickets"
    ∷ route api_router mount "/search"
    ∷ route api_router mount "/portal"
    ∷ route api_router mount "/webhooks"
    ∷ []

abbrev pub server_of : Config → String → ℤ → Bool → ApiServer
server_of cfg secret max_age has_oidc = record {
  session_secret = secret;
  session_max_age = max_age;
  has_oidc = has_oidc;
  managed = not (str_eq cfg.zammad_url "");
  routes = login_routes ++ oidc_routes has_oidc cfg ++ api_routes;
}

abbrev pub sessions_of : Platform → Config → Action Site (String × ℤ)
sessions_of p cfg = session_secret_of p cfg >>= λ secret.
    or_raise (p.parse_duration cfg.session_max_age) failed >>= λ max_age.
    p.new_session_manager secret max_age >>= λ _. pure (secret, max_age)

-- `runAPI` until the server ends; an error of the global migrations is only logged
unfoldable pub run_api : Platform → Config → Action Site ApiServer
run_api p cfg = p.new_postgres_pool cfg.database_url >>= λ _.
    p.new_redis_client cfg.redis_url >>= λ _.
    ignore (p.run_global_migrations cfg.database_url cfg.migrations_global_dir) >>= λ _.
    sessions_of p cfg >>= λ s.
    oidc_of p cfg >>= λ has_oidc. p.listen_and_serve >>= λ _. pure (server_of cfg s.0 s.1 has_oidc)

-- the answer of /auth/config
pub record AuthConfig : Type 0 where
  pub oidc_enabled : Bool
  pub oidc_name : String
  pub local_enabled : Bool
  pub nightowl_url : Option String
  pub bookowl_url : Option String
  pub nightowl_api_url : Option String
  pub bookowl_api_url : Option String

abbrev pub if_set : String → Option String
if_set text = if str_eq text "" then none else some text

-- `check_oidc` is CheckOIDCEnabled of core, which is asked about a tenant that is named
abbrev pub oidc_enabled_for : Bool → (String → Bool) → String → Bool
oidc_enabled_for has_oidc check_oidc tenant =
    if has_oidc then true else if str_eq tenant "" then false else check_oidc tenant

unfoldable pub auth_config : Config → Bool → (String → Bool) → String → AuthConfig
auth_config cfg has_oidc check_oidc tenant = record {
  oidc_enabled = oidc_enabled_for has_oidc check_oidc tenant;
  oidc_name = "Sign in with SSO";
  local_enabled = true;
  nightowl_url = if_set cfg.nightowl_url;
  bookowl_url = if_set cfg.bookowl_url;
  nightowl_api_url = if_set cfg.nightowl_api_url;
  bookowl_api_url = if_set cfg.bookowl_api_url;
}
