-- ===== src/App/Workers.antt =====
-- internal/app/app.go: `runWorker` and `globalTenantLookup`. `schema_name` is core's name of a tenant's
-- schema, and `by_name` the ORDER BY name of ListTenants.
pub mod Laws
use ticketowl.Base.{
  String, List, Action, [], ◌∷◌, ok, if◌then◌else◌, ◌>>=◌, or_raise, pure, find?, no_rows,
}
use ticketowl.App.Settings.{Config, Platform}
use ticketowl.Auth.{GlobalTenant, has_slug}
use ticketowl.Seed.{Site, ask_site}
use ticketowl.Worker.Setup.{Worker, WorkerConfig, new_worker}
use ticketowl.Sla.Types.{Uuid}

-- a worker with the schema that its store and its event handler are given
pub record TenantWorker : Type 0 where
  pub schema : String
  pub worker : Worker

-- the client of NightOwl that all workers share, and the workers in the order of their start
pub record Launched : Type 0 where
  pub nightowl_url : String
  pub nightowl_key : String
  pub workers : List TenantWorker

unfoldable pub list_tenants :
    (List GlobalTenant → List GlobalTenant) → Action Site (List GlobalTenant)
list_tenants by_name = ask_site λ site. (ok (by_name site.accounts.tenants), site)

module _ (schema_name : String → String) (cfg : Config) where
  abbrev pub tenant_worker : GlobalTenant → TenantWorker
  tenant_worker t = record {
    schema = schema_name t.slug;
    worker = new_worker (record {
      poll_interval_seconds = cfg.worker_poll_seconds;
      pause_states = [];
      tenant_slug = t.slug;
    });
  }

  -- the loop over the tenants
  abbrev pub launch : List GlobalTenant → List TenantWorker
  launch [] = []
  launch (t ∷ ts) = let rest = launch ts in if t.suspended then rest else tenant_worker t ∷ rest

  abbrev pub launched_for : List GlobalTenant → Launched
  launched_for tenants = record {
    nightowl_url = cfg.nightowl_api_url;
    nightowl_key = cfg.nightowl_api_key;
    workers = launch tenants;
  }

-- `runWorker` up to the wait for the end; without a tenant it starts no worker
unfoldable pub run_worker :
    Platform
    → (String → String)
    → (List GlobalTenant → List GlobalTenant)
    → Config
    → Action Site Launched
run_worker p schema_name by_name cfg = p.new_postgres_pool cfg.database_url >>= λ _.
    p.new_redis_client cfg.redis_url >>= λ _. list_tenants by_name >>= λ tenants. pure (record {
      nightowl_url = cfg.nightowl_api_url;
      nightowl_key = cfg.nightowl_api_key;
      workers = launch schema_name cfg tenants;
    })

-- `LookupBySlug`
unfoldable pub lookup_by_slug : String → Action Site (Uuid × String)
lookup_by_slug slug =
    ask_site (λ site. or_raise (find? (has_slug slug) site.accounts.tenants) no_rows site) >>= λ t.
    pure (t.id, t.name)
