-- ===== src/App/Tests.antt =====
-- Runs of cmd/ticketowl/main.go and internal/app/app.go.
use ticketowl.Base.{
  false, pure, ℕ, String, List, ◌≡◌, true, some, Bool, ok, err, refl, ◌∷◌, filter, failed, [],
  find?, none,
}
use ticketowl.App.Settings.{Config, Platform}
use ticketowl.App.Api.{run_api, session_secret_of, oidc_of, auth_config}
use ticketowl.App.Workers.{Launched, run_worker}
use ticketowl.App.Workers.Laws.{one_reader_each, reads, worker_for}
use ticketowl.Auth.{GlobalTenant, has_slug}
use ticketowl.Seed.{Site}
use ticketowl.Base.Int.{pos}
use ticketowl.Base.Text.{◌^^◌}

abbrev settings : Config
settings = record {
  mode = "worker";
  database_url = "postgres://db";
  redis_url = "redis://cache";
  otlp_endpoint = "";
  migrations_global_dir = "migrations/global";
  dev_mode = false;
  oidc_issuer_url = "";
  oidc_client_id = "";
  zammad_url = "";
  zammad_token = "";
  nightowl_api_url = "http://nightowl";
  nightowl_api_key = "k";
  bookowl_api_url = "";
  bookowl_api_key = "";
  nightowl_url = "https://nightowl";
  bookowl_url = "";
  worker_poll_seconds = pos 60;
  oidc_client_secret = "";
  oidc_redirect_url = "";
  session_secret = "";
  session_max_age = "24h";
  admin_password = "";
  encryption_key = "";
}

-- every call succeeds and changes nothing
abbrev platform : Platform
platform = record {
  init_tracer = λ endpoint. pure tt;
  new_postgres_pool = λ url. pure tt;
  new_redis_client = λ url. pure tt;
  run_global_migrations = λ url dir. pure tt;
  parse_duration = λ text. some (pos 86400);
  generate_dev_secret = "dev";
  new_session_manager = λ secret max_age. pure tt;
  new_oidc_authenticator = λ issuer client. pure tt;
  listen_and_serve = pure tt;
}

abbrev tenant : ℕ → String → Bool → GlobalTenant
tenant id slug suspended = record {
  id = id;
  slug = slug;
  name = slug;
  suspended = suspended;
  created_at = pos 0;
  updated_at = pos 0;
}

abbrev two_tenants : Site
two_tenants = record {
  accounts = record {
    down = λ n. false;
    queries = 0;
    next_id = 3;
    clock = pos 0;
    tenants = tenant 1 "acme" false ∷ tenant 2 "globex" true ∷ [];
    api_keys = [];
    users = λ s. none;
  };
  admins = [];
  schemas = λ s. none;
}

abbrev schema_name : String → String
schema_name slug = "tenant_" ^^ slug

abbrev by_name : List GlobalTenant → List GlobalTenant
by_name ts = ts

one_reader_each_example :
    (launched : Launched) × ((run_worker platform schema_name by_name settings two_tenants).0
      ≡ ok launched)
    × ((slug : String)
        → filter (reads slug) launched.workers
          ≡ worker_for platform schema_name by_name settings
              (find? (has_slug slug) two_tenants.accounts.tenants))
one_reader_each_example =
    one_reader_each platform schema_name by_name settings two_tenants two_tenants two_tenants refl
      refl refl (refl, (refl, tt))

api_needs_secret : (run_api platform settings two_tenants).0 ≡ err failed
unfolding run_api session_secret_of
api_needs_secret = refl

secret_of_dev_mode :
    (session_secret_of platform (record settings { dev_mode = true }) two_tenants).0 ≡ ok "dev"
unfolding session_secret_of
secret_of_dev_mode = refl

no_oidc_without_client :
    (oidc_of platform (record settings { oidc_issuer_url = "https://sso" }) two_tenants).0
    ≡ ok false
unfolding oidc_of
no_oidc_without_client = refl

config_asks_tenant : (auth_config settings false (λ t. true) "acme").oidc_enabled ≡ true
unfolding auth_config
config_asks_tenant = refl
