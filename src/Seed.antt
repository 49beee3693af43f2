-- ===== src/Seed.antt =====
-- internal/seed/seed.go: the development tenant. The provisioning, the migrations, bcrypt and the hash of
-- an API key are parameters.
pub mod Tenant
pub mod Laws
pub mod New
pub mod Again
pub mod Demo
mod Tests
use ticketowl.Base.{
  String, List, Action, Bool, Option, suc, none, or_raise, ◌==◌, true, if◌then◌else◌, err, find?,
  ◌++◌, str_eq, any, failed, ◌>>=◌, Result, attempt, some, no_rows, ◌∷◌, ok, pure, [], ◌&&◌, not,
  false,
}
use ticketowl.Base.Table.{upsert, delete}
use ticketowl.Auth.{Accounts, GlobalTenant, GlobalApiKey, has_slug}
use ticketowl.Db.{Db}
use ticketowl.Seed.Tenant.{seed_tenant}
use ticketowl.Sla.Types.{Uuid, Time}

-- public.local_admins
pub record LocalAdmin : Type 0 where
  pub id : Uuid
  pub tenant_id : Uuid
  pub username : String
  pub password_hash : String
  pub must_change : Bool

-- The database server: the global tables, whose record counts the queries, and the tenants' schemas.
pub record Site : Type 0 where
  pub accounts : Accounts
  pub admins : List LocalAdmin
  pub schemas : String → Option Db

-- what `Provision` returns
pub record TenantInfo : Type 0 where
  pub id : Uuid
  pub schema : String

-- a query of the pool
unfoldable pub ask_site : {A : Type 0} → Action Site A → Action Site A
ask_site run site =
    let a = site.accounts in
    let site' = record site { accounts = record a { queries = suc a.queries } } in
    if a.down a.queries then (err failed, site') else run site'

abbrev pub with_schema : String → Db → Site → Site
with_schema schema db site = record site {
  schemas = λ s. if str_eq s schema then some db else site.schemas s;
}

-- there are no tables if there is no schema
abbrev pub run_in : {A : Type 0} → String → Action Db A → Site → Option Db → Result A × Site
run_in schema m site none = (err failed, site)
run_in schema m site (some db) = let (r, db') = m db in (r, with_schema schema db' site)

-- the statements of a connection whose search path is the schema
unfoldable pub in_schema : {A : Type 0} → String → Action Db A → Action Site A
in_schema schema m site = run_in schema m site (site.schemas schema)

abbrev pub acme : String
acme = "acme"

abbrev pub dev_api_key : String
dev_api_key = "to_dev_seed_key_do_not_use_in_production"

unfoldable pub find_acme : Action Site GlobalTenant
find_acme = ask_site λ site. or_raise (find? (has_slug acme) site.accounts.tenants) no_rows site

abbrev pub is_tenant : Uuid → GlobalTenant → Bool
is_tenant id t = t.id == id

abbrev pub tenant_row : String → String → Accounts → GlobalTenant
tenant_row name slug a = record {
  id = a.next_id;
  slug = slug;
  name = name;
  suspended = false;
  created_at = a.clock;
  updated_at = a.clock;
}

-- UNIQUE (slug)
unfoldable pub create_tenant : String → String → Action Site Uuid
create_tenant name slug = ask_site λ site.
    let a = site.accounts in
    let t = tenant_row name slug a in
    let a' = record a { next_id = suc a.next_id; tenants = a.tenants ++ t ∷ [] } in
    if any (has_slug slug) a.tenants
    then (err failed, site)
    else (ok t.id, record site { accounts = a' })

-- the API keys and the local admins go with their tenant: ON DELETE CASCADE
abbrev pub without_tenants : (Uuid → Bool) → Site → Site
without_tenants gone site =
    let a' = record site.accounts {
      tenants = delete (λ (t : GlobalTenant). gone t.id) site.accounts.tenants;
      api_keys = delete (λ (k : GlobalApiKey). gone k.tenant_id) site.accounts.api_keys;
    } in
    record site {
      accounts = a';
      admins = delete (λ (l : LocalAdmin). gone l.tenant_id) site.admins;
    }

unfoldable pub delete_tenant : Uuid → Action Site (Unit {0})
delete_tenant id = ask_site λ site. (ok tt, without_tenants (λ i. i == id) site)

-- UNIQUE (key_hash), and the foreign key to the tenant
unfoldable pub insert_api_key : Uuid → String → Action Site (Unit {0})
insert_api_key tenant_id hash = ask_site λ site.
    let a = site.accounts in
    let key : GlobalApiKey = record {
      id = a.next_id;
      tenant_id = tenant_id;
      key_hash = hash;
      description = "Development seed key";
      created_at = a.clock;
      last_used_at = none;
    } in
    let a' = record a { next_id = suc a.next_id; api_keys = a.api_keys ++ key ∷ [] } in
    if any (is_tenant tenant_id) a.tenants
      && not (any (λ (k : GlobalApiKey). str_eq k.key_hash hash) a.api_keys)
    then (ok tt, record site { accounts = a' })
    else (err failed, site)

abbrev pub of_tenant : Uuid → LocalAdmin → Bool
of_tenant id a = a.tenant_id == id

abbrev pub new_admin : Uuid → String → Site → LocalAdmin
new_admin tenant_id hash site = record {
  id = site.accounts.next_id;
  tenant_id = tenant_id;
  username = "admin";
  password_hash = hash;
  must_change = true;
}

abbrev pub reset_admin : String → LocalAdmin → LocalAdmin
reset_admin hash a = record a { password_hash = hash; must_change = true }

-- a password that is given is written over the old one, the default one is not
abbrev pub merge_admin : String → String → LocalAdmin → LocalAdmin
merge_admin given hash a = if str_eq given "" then a else reset_admin hash a

unfoldable pub write_admin : Uuid → String → String → Action Site (Unit {0})
write_admin tenant_id given hash = ask_site λ site.
    let admins =
      upsert (of_tenant tenant_id) (merge_admin given hash) (new_admin tenant_id hash site)
        site.admins in
    let a = site.accounts in
    if any (is_tenant tenant_id) a.tenants
    then (ok tt, record site { admins = admins; accounts = record a { next_id = suc a.next_id } })
    else (err failed, site)

abbrev pub password_or_default : String → String
password_or_default given = if str_eq given "" then "ticketowl-admin" else given

module _ (provision : String → String → Action Site TenantInfo)
    (migrate : String → Action Site (Unit {0})) (bcrypt : String → Option String)
    (hash_api_key : String → String) where
  unfoldable pub ensure_local_admin : Uuid → String → Action Site (Unit {0})
  ensure_local_admin tenant_id admin_password =
      or_raise (bcrypt (password_or_default admin_password)) failed >>= λ hash.
      write_admin tenant_id admin_password hash

  -- the tenant is there already
  abbrev pub seed_existing : String → Uuid → Action Site (Unit {0})
  seed_existing admin_password tenant_id =
      migrate acme >>= λ _. ensure_local_admin tenant_id admin_password

  abbrev pub seed_provisioned : String → String → String → TenantInfo → Action Site (Unit {0})
  seed_provisioned admin_password zammad_url zammad_token info =
      insert_api_key info.id (hash_api_key dev_api_key) >>= λ _. ask_site (pure tt) >>= λ _.
      ask_site (pure tt) >>= λ _.
      in_schema info.schema (seed_tenant zammad_url zammad_token) >>= λ _.
      ensure_local_admin info.id admin_password

  abbrev pub seed_new : String → String → String → Action Site (Unit {0})
  seed_new admin_password zammad_url zammad_token =
      provision "Acme Corp" acme >>= seed_provisioned admin_password zammad_url zammad_token

  -- an error of the lookup means that the tenant is not there
  abbrev pub seed_found : String → String → String → Result GlobalTenant → Action Site (Unit {0})
  seed_found admin_password url token (ok t) = seed_existing admin_password t.id
  seed_found admin_password url token (err e) = seed_new admin_password url token

  -- `Run`
  unfoldable pub seed_run : String → String → String → Action Site (Unit {0})
  seed_run admin_password zammad_url zammad_token =
      attempt find_acme >>= seed_found admin_password zammad_url zammad_token
