-- ===== src/App/Settings.antt =====
-- internal/config/config.go with the fields of core's BaseConfig that internal/app/app.go reads, and
-- the calls of core's packages and of the HTTP server that it makes.
use ticketowl.Base.{String, Bool, Action, Option}
use ticketowl.Seed.{Site}
use ticketowl.Base.Int.{ℤ}

pub record Config : Type 0 where
  pub mode : String
  pub database_url : String
  pub redis_url : String
  pub otlp_endpoint : String
  pub migrations_global_dir : String
  pub dev_mode : Bool
  pub oidc_issuer_url : String
  pub oidc_client_id : String
  pub zammad_url : String
  pub zammad_token : String
  pub nightowl_api_url : String
  pub nightowl_api_key : String
  pub bookowl_api_url : String
  pub bookowl_api_key : String
  pub nightowl_url : String
  pub bookowl_url : String
  pub worker_poll_seconds : ℤ
  pub oidc_client_secret : String
  pub oidc_redirect_url : String
  pub session_secret : String
  pub session_max_age : String
  pub admin_password : String
  pub encryption_key : String

-- The calls may fail and may change the databases.
pub record Platform : Type 0 where
  pub init_tracer : String → Action Site (Unit {0})
  pub new_postgres_pool : String → Action Site (Unit {0})
  pub new_redis_client : String → Action Site (Unit {0})
  pub run_global_migrations : String → String → Action Site (Unit {0})
  pub parse_duration : String → Option ℤ
  pub generate_dev_secret : String
  pub new_session_manager : String → ℤ → Action Site (Unit {0})
  pub new_oidc_authenticator : String → String → Action Site (Unit {0})
  pub listen_and_serve : Action Site (Unit {0})
