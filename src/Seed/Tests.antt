-- ===== src/Seed/Tests.antt =====
-- Runs of internal/seed on a small server.
use ticketowl.Base.{
  false, String, [], Action, Option, ◌≡◌, none, pure, some, ok, ◌+◌, suc, refl, ◌++◌, ◌∷◌,
  if◌then◌else◌, str_eq, ℕ, length, err, failed, no_rows,
}
use ticketowl.Auth.{Accounts, GlobalTenant}
use ticketowl.Db.{Db, query, fits_int4, fits_numeric}
use ticketowl.Db.Sample.{empty_db}
use ticketowl.Seed.{
  create_tenant, delete_tenant, Site, seed_run, TenantInfo, ask_site, find_acme, insert_api_key,
  in_schema, ensure_local_admin, write_admin,
}
use ticketowl.Seed.Laws.{blank, IsServed}
use ticketowl.Seed.New.{run_serves, counted}
use ticketowl.Seed.Again.{rerun_skips}
use ticketowl.Sla.Store as SlaStore
use ticketowl.Link.Store as LinkStore
use ticketowl.Seed.Demo.{
  demo_run, delete_acme, drop_schema, seed_demo, default_policies, seed_tickets, insert_ticket,
  seed_states, insert_state, seed_links,
}
use ticketowl.Base.Text.{◌^^◌}
use ticketowl.Base.Int.{pos}
use ticketowl.Sla.Types.{Uuid}
use ticketowl.Seed.Tenant.{
  seed_tenant, seed_sla_policies, seed_zammad_config, seed_integration_keys, insert_key,
}
use ticketowl.Base.Table.{upsert}

abbrev no_accounts : Accounts
no_accounts = record {
  down = λ n. false;
  queries = 0;
  next_id = 1;
  clock = pos 0;
  tenants = [];
  api_keys = [];
  users = λ s. none;
}

abbrev server : Site
server = record { accounts = no_accounts; admins = []; schemas = λ s. none }

abbrev tenant_of : String → String → Uuid → GlobalTenant
tenant_of name slug id = record {
  id = id;
  slug = slug;
  name = name;
  suspended = false;
  created_at = pos 0;
  updated_at = pos 0;
}

-- a provisioning that makes the row and the schema
abbrev provision : String → String → Action Site TenantInfo
provision name slug site = (
  ok (record { id = site.accounts.next_id; schema = "tenant_acme" }),
  record site {
    accounts = record site.accounts {
      next_id = suc site.accounts.next_id;
      tenants = site.accounts.tenants ++ tenant_of name slug site.accounts.next_id ∷ [];
    };
    schemas = λ s. if str_eq s "tenant_acme" then some (blank empty_db) else site.schemas s;
  },
)

abbrev migrate : String → Action Site (Unit {0})
migrate schema = pure tt

abbrev bcrypt : String → Option String
bcrypt password = some password

abbrev key_hash : String → String
key_hash key = key

abbrev make : String → String → String × String
make url key = (url, key)

run_serves_example :
    let (r, end) = seed_run provision migrate bcrypt key_hash "" "https://z" "" server in
    (r ≡ ok tt)
    × ((db : Db) × (end.schemas "tenant_acme" ≡ some db) × IsServed make "https://z" "" db)
run_serves_example =
    run_serves provision migrate bcrypt key_hash "" "https://z" "" make
      (record { id = 1; schema = "tenant_acme" }) empty_db "ticketowl-admin" server
      (provision "Acme Corp" "acme" (counted server)).1 refl refl refl
      (record {
        up = λ n. refl;
        known = refl;
        unkeyed = refl;
        schema = refl;
        tenant_up = λ n. refl;
      })
      refl

-- a tenant whose first run failed after the provisioning
abbrev half : Site
half = (provision "Acme Corp" "acme" server).1

rerun_skips_example :
    let (r, end) = seed_run provision migrate bcrypt key_hash "s3cret" "" "" half in
    (r ≡ ok tt)
    × (end.schemas ≡ half.schemas)
    × (end.accounts.tenants ≡ half.accounts.tenants)
    × (end.accounts.api_keys ≡ half.accounts.api_keys)
rerun_skips_example =
    rerun_skips provision migrate bcrypt key_hash "s3cret" "" "" half
      (tenant_of "Acme Corp" "acme" 1) "s3cret" (λ n. refl) refl (λ s. refl) refl

-- A tenant that is created is found until it is deleted, and its slug is taken.
create_find_delete :
    let (created, s1) = create_tenant "Acme Corp" "acme" server in
    let s2 = (delete_tenant 1 s1).1 in
    (created ≡ ok 1)
    × ((find_acme s1).0 ≡ ok (tenant_of "Acme Corp" "acme" 1))
    × ((create_tenant "Acme" "acme" s1).0 ≡ err failed)
    × ((find_acme s2).0 ≡ err no_rows)
unfolding create_tenant delete_tenant find_acme ask_site
create_find_delete = (refl, refl, refl, refl)

abbrev ticket_count : Option Db → ℕ
ticket_count none = 0
ticket_count (some db) = length db.ticket_meta

-- The demo run drops the half-seeded tenant and ends with its ten tickets.
demo_has_tickets :
    let (r, end) =
      demo_run provision migrate bcrypt key_hash
        (λ slug. "tenant_" ^^ slug)
        ""
        ""
        ""
        (pos 0)
        (λ n. n + 900)
        half in
    (r ≡ ok tt)
    × (ticket_count (end.schemas "tenant_acme") ≡ 10)
    × (length end.accounts.tenants ≡ 1)
unfolding demo_run ask_site seed_run find_acme delete_acme drop_schema insert_api_key in_schema
    seed_tenant seed_sla_policies SlaStore.create_policy query seed_zammad_config
    seed_integration_keys insert_key ensure_local_admin write_admin upsert seed_demo
    default_policies seed_tickets insert_ticket seed_states insert_state seed_links
    LinkStore.create_incident_link fits_int4 fits_numeric
demo_has_tickets = (refl, refl, refl)
