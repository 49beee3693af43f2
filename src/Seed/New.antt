-- ===== src/Seed/New.antt =====
-- internal/seed/seed.go: `Run` where the tenant is not there.
use ticketowl.Base.{
  String, suc, Action, if◌then◌else◌, ℕ, ◌≡◌, str_eq, Result, false, some, ap, any, true, ok, ◌∙◌,
  refl, ◌++◌, Option, none, ◌∷◌, [], find?, attempt_ran, or_raise, >>=-ok, no_rows, failed, attempt,
  pure, ◌>>=◌, eq_iff,
}
use ticketowl.Auth.{GlobalApiKey, has_slug}
use ticketowl.Db.{Db}
use ticketowl.Seed.{
  Site, ask_site, in_schema, write_admin, TenantInfo, is_tenant, of_tenant, merge_admin, new_admin,
  with_schema, insert_api_key, ensure_local_admin, seed_run, dev_api_key, find_acme,
  password_or_default, seed_provisioned, acme, seed_found,
}
use ticketowl.Seed.Laws.{blank, IsServed, seeded, seed_tenant-seeds, seeded-IsServed}
use ticketowl.Base.Table.{upsert}
use ticketowl.Sla.Types.{Uuid}
use ticketowl.Seed.Tenant.{seed_tenant}

abbrev pub counted : Site → Site
counted site =
    let a = site.accounts in record site { accounts = record a { queries = suc a.queries } }

pub ask_site_ran :
    {A : Type 0} (run : Action Site A) (site : Site)
    → site.accounts.down site.accounts.queries ≡ false
    → ask_site run site ≡ run (counted site)
unfolding ask_site
ask_site_ran run site up = rw up

in_schema_ran :
    {A : Type 0} (schema : String) (m : Action Db A) (site : Site) {db db' : Db} {r : Result A}
    → site.schemas schema ≡ some db
    → m db ≡ (r, db')
    → in_schema schema m site ≡ (r, with_schema schema db' site)
unfolding in_schema
in_schema_ran schema m site found ran = rw found (ap (λ x. (x.0, with_schema schema x.1 site)) ran)

pub write_admin_ran :
    (id : Uuid) (given hash : String) (site : Site)
    → site.accounts.down site.accounts.queries ≡ false
    → any (is_tenant id) site.accounts.tenants ≡ true
    → write_admin id given hash site ≡ (
      ok tt,
      record site {
        admins =
            upsert (of_tenant id) (merge_admin given hash) (new_admin id hash site) site.admins;
        accounts = record site.accounts {
          queries = suc site.accounts.queries;
          next_id = suc site.accounts.next_id;
        };
      },
    )
unfolding write_admin
write_admin_ran id given hash site up known = ask_site_ran _ site up ∙ rw known refl

-- What `Provision` is to leave: the tenant, without the development key, and its schema with the tables
-- empty.
pub record IsProvisioned (info : TenantInfo) (key : String) (db : Db) (site : Site) : Type 0 where
  pub up : (n : ℕ) → site.accounts.down n ≡ false
  pub known : any (is_tenant info.id) site.accounts.tenants ≡ true
  pub unkeyed : any (λ (k : GlobalApiKey). str_eq k.key_hash key) site.accounts.api_keys ≡ false
  pub schema : site.schemas info.schema ≡ some (blank db)
  pub tenant_up : (n : ℕ) → db.down n ≡ false

abbrev keyed : TenantInfo → String → Site → Site
keyed info hash site =
    let a = (counted site).accounts in
    record site {
      accounts = record a {
        next_id = suc a.next_id;
        api_keys =
            a.api_keys
            ++ record {
              id = a.next_id;
              tenant_id = info.id;
              key_hash = hash;
              description = "Development seed key";
              created_at = a.clock;
              last_used_at = none;
            }
              ∷ [];
      };
    }

insert_api_key_ran :
    (info : TenantInfo) (hash : String) (db : Db) (site : Site)
    → IsProvisioned info hash db site
    → insert_api_key info.id hash site ≡ (ok tt, keyed info hash site)
unfolding insert_api_key
insert_api_key_ran info hash db site p =
    ask_site_ran _ site (p.up site.accounts.queries) ∙ rw (p.known, p.unkeyed) refl

module _ (provision : String → String → Action Site TenantInfo)
    (migrate : String → Action Site (Unit {0})) (bcrypt : String → Option String)
    (hash_api_key : String → String) (password url token : String) where
  provisioned-Served :
      {C : Type 0} (make : String → String → C) (info : TenantInfo) (db : Db) (hash : String)
      (site : Site)
      → IsProvisioned info (hash_api_key dev_api_key) db site
      → bcrypt (password_or_default password) ≡ some hash
      → let (r, end) =
          seed_provisioned provision migrate bcrypt hash_api_key password url token info site in
        (r ≡ ok tt)
        × ((db' : Db) × (end.schemas info.schema ≡ some db') × IsServed make url token db')
  unfolding ensure_local_admin
  provisioned-Served make info db hash site p hashed =
      let s1 = keyed info (hash_api_key dev_api_key) site in
      let s2 = counted (counted s1) in
      let s3 = with_schema info.schema (seeded url token db) s2 in
      let admin = ensure_local_admin provision migrate bcrypt hash_api_key info.id password in
      let seed = in_schema info.schema (seed_tenant url token) in
      let admin_made =
        >>=-ok (or_raise (bcrypt (password_or_default password)) failed)
          (write_admin info.id password) s3 (ap (λ o. or_raise o failed s3) hashed)
        ∙ write_admin_ran info.id password hash s3 (p.up _) p.known in
      let ran =
        >>=-ok (insert_api_key info.id (hash_api_key dev_api_key))
          (λ _. ask_site (pure tt) >>= λ _. ask_site (pure tt) >>= λ _. seed >>= λ _. admin) site
          (insert_api_key_ran info (hash_api_key dev_api_key) db site p)
        ∙ >>=-ok (ask_site (pure tt)) (λ _. ask_site (pure tt) >>= λ _. seed >>= λ _. admin) s1
            (ask_site_ran (pure tt) s1 (p.up _))
        ∙ >>=-ok (ask_site (pure tt)) (λ _. seed >>= λ _. admin) (counted s1)
            (ask_site_ran (pure tt) (counted s1) (p.up _))
        ∙ >>=-ok seed (λ _. admin) s2
            (in_schema_ran info.schema (seed_tenant url token) s2 p.schema
              (seed_tenant-seeds url token db p.tenant_up))
        ∙ admin_made in
      let there =
        ap (λ b. if b then some (seeded url token db) else site.schemas info.schema)
          ((eq_iff info.schema info.schema).1 refl) in
      rw ran (refl, (seeded url token db, there, seeded-IsServed url token db p.tenant_up make))

  -- If the tenant is not there, the lookup is answered, the provisioning leaves the tenant with empty
  -- tables and without the development key, every query is answered and the password can be hashed,
  -- then the run succeeds, and in the tenant's schema each of the four priorities has its seeded
  -- default policy, the three clients of the tenant and its webhook secret are found, and Zammad's is
  -- made of the address and the token that were given, or of the placeholders for empty ones.
  pub run_serves :
      {C : Type 0} (make : String → String → C) (info : TenantInfo) (db : Db) (hash : String)
      (site site' : Site)
      → site.accounts.down site.accounts.queries ≡ false
      → find? (has_slug acme) site.accounts.tenants ≡ none
      → provision "Acme Corp" acme (counted site) ≡ (ok info, site')
      → IsProvisioned info (hash_api_key dev_api_key) db site'
      → bcrypt (password_or_default password) ≡ some hash
      → let (r, end) = seed_run provision migrate bcrypt hash_api_key password url token site in
        (r ≡ ok tt)
        × ((db' : Db) × (end.schemas info.schema ≡ some db') × IsServed make url token db')
  unfolding seed_run find_acme
  run_serves make info db hash site site' up missing made p hashed =
      let absent =
        attempt_ran find_acme site
          (ask_site_ran _ site up ∙ ap (λ o. or_raise o no_rows (counted site)) missing) in
      let ran =
        >>=-ok (attempt find_acme)
          (seed_found provision migrate bcrypt hash_api_key password url token) site absent
        ∙ >>=-ok (provision "Acme Corp" acme)
            (seed_provisioned provision migrate bcrypt hash_api_key password url token)
            (counted site) made in
      rw ran (provisioned-Served make info db hash site' p hashed)
