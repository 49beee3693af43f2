-- ===== src/Seed/Again.antt =====
-- internal/seed/seed.go: `Run` where the tenant is there.
use ticketowl.Base.{
  refl, String, Action, Option, ℕ, ◌≡◌, false, find?, some, ok, attempt_ran, ◌∙◌, ap, or_raise,
  no_rows, >>=-ok, attempt, failed, refl,
}
use ticketowl.Auth.{has_slug, GlobalTenant}
use ticketowl.Seed.{
  Site, TenantInfo, seed_run, find_acme, ensure_local_admin, acme, password_or_default, is_tenant,
  seed_found, write_admin,
}
use ticketowl.Seed.New.{counted, ask_site_ran, write_admin_ran}
use ticketowl.Worker.Handler.Queries.{any_of_find, eq_self}

module _ (provision : String → String → Action Site TenantInfo)
    (migrate : String → Action Site (Unit {0})) (bcrypt : String → Option String)
    (hash_api_key : String → String) (password url token : String) where
  -- If the tenant is there, every query is answered, no migration is pending and the password can be
  -- hashed, then the run succeeds and leaves the schemas of all tenants, the tenants and the API keys
  -- as they are: what an earlier run that failed half-way did not insert is not inserted either.
  pub rerun_skips :
      (site : Site) (t : GlobalTenant) (hash : String)
      → ((n : ℕ) → site.accounts.down n ≡ false)
      → find? (has_slug acme) site.accounts.tenants ≡ some t
      → ((s : Site) → migrate acme s ≡ (ok tt, s))
      → bcrypt (password_or_default password) ≡ some hash
      → let (r, end) = seed_run provision migrate bcrypt hash_api_key password url token site in
        (r ≡ ok tt)
        × (end.schemas ≡ site.schemas)
        × (end.accounts.tenants ≡ site.accounts.tenants)
        × (end.accounts.api_keys ≡ site.accounts.api_keys)
  unfolding seed_run find_acme ensure_local_admin
  rerun_skips site t hash up found pending hashed =
      let s1 = counted site in
      let admin = ensure_local_admin provision migrate bcrypt hash_api_key t.id password in
      let known =
        any_of_find (has_slug acme) (is_tenant t.id) site.accounts.tenants found (eq_self t.id) in
      let there =
        attempt_ran find_acme site
          (ask_site_ran _ site (up _) ∙ ap (λ o. or_raise o no_rows s1) found) in
      let ran =
        >>=-ok (attempt find_acme)
          (seed_found provision migrate bcrypt hash_api_key password url token) site there
        ∙ >>=-ok (migrate acme) (λ _. admin) s1 (pending s1)
        ∙ >>=-ok (or_raise (bcrypt (password_or_default password)) failed)
            (write_admin t.id password) s1 (ap (λ o. or_raise o failed s1) hashed)
        ∙ write_admin_ran t.id password hash s1 (up _) known in
      rw ran (refl, refl, refl, refl)
