-- ===== src/App.antt =====
-- cmd/ticketowl/main.go and internal/app/app.go: the modes of the program. The platform, the HTTP
-- server and the telemetry are parameters.
pub mod Settings
pub mod Api
pub mod Workers
mod Tests
use ticketowl.Base.{
  String, Action, if◌then◌else◌, List, Option, str_eq, ◌>>=◌, ℕ, pure, or_raise, raise, failed,
}
use ticketowl.App.Settings.{Config, Platform}
use ticketowl.App.Api.{ApiServer, run_api}
use ticketowl.App.Workers.{Launched, run_worker}
use ticketowl.Auth.{GlobalTenant}
use ticketowl.Seed.{Site, TenantInfo, seed_run}
use ticketowl.Seed.Demo.{demo_run}
use ticketowl.Sla.Types.{Uuid, Time}

-- what a mode leaves running, or `finished` for one that ends by itself
pub data Running : Type 0 where
  serving : ApiServer → Running
  working : Launched → Running
  finished : Running

-- what the seeds take of core and of the clock
pub record SeedTools : Type 0 where
  pub provision : String → String → Action Site TenantInfo
  pub migrate : String → Action Site (Unit {0})
  pub bcrypt : String → Option String
  pub hash_api_key : String → String
  pub now : Time
  pub new_uuid : ℕ → Uuid

-- `flag.Parse` gives "" for a mode that is not set
abbrev pub with_mode : String → Config → Config
with_mode mode cfg = if str_eq mode "" then cfg else record cfg { mode = mode }

module _ (p : Platform) (tools : SeedTools) (schema_name : String → String)
    (by_name : List GlobalTenant → List GlobalTenant) where
  abbrev pub run_migrate : Config → Action Site (Unit {0})
  run_migrate cfg = p.run_global_migrations cfg.database_url cfg.migrations_global_dir

  unfoldable pub run_seed : Config → Action Site (Unit {0})
  run_seed cfg = p.new_postgres_pool cfg.database_url >>= λ _. run_migrate cfg >>= λ _.
      seed_run tools.provision tools.migrate tools.bcrypt tools.hash_api_key cfg.admin_password
        cfg.zammad_url cfg.zammad_token

  unfoldable pub run_seed_demo : Config → Action Site (Unit {0})
  run_seed_demo cfg = p.new_postgres_pool cfg.database_url >>= λ _. run_migrate cfg >>= λ _.
      demo_run tools.provision tools.migrate tools.bcrypt tools.hash_api_key schema_name
        cfg.admin_password cfg.zammad_url cfg.zammad_token tools.now tools.new_uuid

  abbrev pub then_finished : Action Site (Unit {0}) → Action Site Running
  then_finished m = m >>= λ _. pure finished

  -- the switch of `Run`
  unfoldable pub run_mode : Config → Action Site Running
  run_mode cfg =
      if str_eq cfg.mode "api"
      then (run_api p cfg >>= λ srv. pure (serving srv))
      else if str_eq cfg.mode "worker"
      then (run_worker p schema_name by_name cfg >>= λ launched. pure (working launched))
      else if str_eq cfg.mode "seed"
      then then_finished (run_seed cfg)
      else if str_eq cfg.mode "seed-demo"
      then then_finished (run_seed_demo cfg)
      else if str_eq cfg.mode "migrate"
      then then_finished (run_migrate cfg)
      else raise failed

  -- `Run`
  unfoldable pub app_run : Config → Action Site Running
  app_run cfg = p.init_tracer cfg.otlp_endpoint >>= λ _. run_mode cfg

  -- `main`; `load` is the configuration of the environment, and an error is the exit status 1
  unfoldable pub main : Option Config → String → Action Site Running
  main load mode = or_raise load failed >>= λ cfg. app_run (with_mode mode cfg)
