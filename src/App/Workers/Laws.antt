-- ===== src/App/Workers/Laws.antt =====
-- internal/app/app.go: which worker reads the stream of a tenant.
use ticketowl.Base.{
  String, Bool, str_eq, List, Option, ◌≡◌, Bool-cases, any, [], filter, ok, inl, false, some, find?,
  ◌∷◌, eq_iff, arith, none, inr, if◌then◌else◌, ◌∙◌, refl, ap, sym, pure, >>=-ok, ◌>>=◌,
}
use ticketowl.Seed.New.{counted, ask_site_ran}
use ticketowl.App.Workers.{launched_for}
use ticketowl.App.Settings.{Config, Platform}
use ticketowl.App.Workers.{TenantWorker, Launched, tenant_worker, launch, run_worker, list_tenants}
use ticketowl.Auth.{GlobalTenant, has_slug}
use ticketowl.Seed.{Site}
use ticketowl.Worker.Setup.{new_worker}
use ticketowl.Webhook.Handler.{stream_key}
use ticketowl.Base.Text.{cancel_around}
use ticketowl.Base.Unique.{Unique}

-- the worker reads the stream on which the webhooks of the tenant queue
abbrev pub reads : String → TenantWorker → Bool
reads slug w = str_eq w.worker.events_key (stream_key slug)

abbrev pub same_slug : GlobalTenant → GlobalTenant → Bool
same_slug t u = has_slug t.slug u

list_tenants_ran :
    (by_name : List GlobalTenant → List GlobalTenant) (site : Site)
    → site.accounts.down site.accounts.queries ≡ false
    → list_tenants by_name site ≡ (ok (by_name site.accounts.tenants), counted site)
unfolding list_tenants
list_tenants_ran by_name site up = ask_site_ran _ site up

-- two streams have the same key only if the slugs are the same
str_eq-stream_key : (a b : String) → str_eq (stream_key a) (stream_key b) ≡ str_eq a b
str_eq-stream_key a b = elim (Bool-cases (str_eq (stream_key a) (stream_key b))) [
  | inl h ↦
      let e = cancel_around "ticketowl:" ":events" ((eq_iff (stream_key a) (stream_key b)).0 h) in
      h ∙ sym ((eq_iff a b).1 e)
  | inr h ↦ elim (Bool-cases (str_eq a b)) [
    | inl k ↦
        let e = (eq_iff (stream_key a) (stream_key b)).1 (ap stream_key ((eq_iff a b).0 k)) in
        e ∙ sym k
    | inr k ↦ h ∙ sym k
  ]
]

-- without a tenant of the slug nothing is kept
filter-none :
    (slug : String) (ts : List GlobalTenant)
    → any (has_slug slug) ts ≡ false
    → filter (has_slug slug) ts ≡ []
filter-none slug [] h = refl
filter-none slug (t ∷ ts) h = ground (arith, h, filter-none slug ts)

abbrev pub all_of : Option GlobalTenant → List GlobalTenant
all_of none = []
all_of (some t) = t ∷ []

-- What is found under a slug that no two tenants share is all that there is.
filter-Unique :
    (slug : String) (ts : List GlobalTenant)
    → Unique same_slug ts
    → filter (has_slug slug) ts ≡ all_of (find? (has_slug slug) ts)
filter-Unique slug [] u = refl
filter-Unique slug (t ∷ ts) (alone, u) = elim (Bool-cases (has_slug slug t)) [
  | inl h ↦
      let e = (eq_iff t.slug slug).0 h in
      rw h (ap (λ l. t ∷ l) (filter-none slug ts (ap (λ s. any (has_slug s) ts) (sym e) ∙ alone)))
  | inr h ↦ rw h (filter-Unique slug ts u)
]

module _ (schema_name : String → String) (cfg : Config) (slug : String) where
  reads-tenant_worker :
      (t : GlobalTenant) → reads slug (tenant_worker schema_name cfg t) ≡ has_slug slug t
  unfolding new_worker
  reads-tenant_worker t = str_eq-stream_key t.slug slug

  filter-launch :
      (ts : List GlobalTenant)
      → filter (reads slug) (launch schema_name cfg ts)
        ≡ launch schema_name cfg (filter (has_slug slug) ts)
  filter-launch [] = refl
  filter-launch (t ∷ ts) =
      let ih = filter-launch ts in
      let read = reads-tenant_worker t in
      elim (Bool-cases (has_slug slug t)) [
        | inl h ↦ elim (Bool-cases t.suspended) [
          | inl s ↦ rw (h, s) ih
          | inr s ↦ rw (h, s, read ∙ h) (ap (λ l. tenant_worker schema_name cfg t ∷ l) ih)
        ]
        | inr h ↦ elim (Bool-cases t.suspended) [
          | inl s ↦ rw (h, s) ih
          | inr s ↦ rw (h, s, read ∙ h) ih
        ]
      ]

module _ (p : Platform) (schema_name : String → String)
    (by_name : List GlobalTenant → List GlobalTenant) (cfg : Config) where
  -- The worker of a tenant, if there is the tenant and it is not suspended.
  abbrev pub worker_for : Option GlobalTenant → List TenantWorker
  worker_for none = []
  worker_for (some t) = if t.suspended then [] else tenant_worker schema_name cfg t ∷ []

  launch-all_of : (o : Option GlobalTenant) → launch schema_name cfg (all_of o) ≡ worker_for o
  launch-all_of none = refl
  launch-all_of (some t) = refl

  -- If the connections are made and the tenants are listed, no two with the same slug, then the
  -- worker mode starts, and for every slug the workers that read the stream on which the webhooks
  -- of this slug queue are one worker on the schema of the tenant, or none if the tenant is
  -- suspended or not there.
  pub one_reader_each :
      (site s1 s2 : Site)
      → p.new_postgres_pool cfg.database_url site ≡ (ok tt, s1)
      → p.new_redis_client cfg.redis_url s1 ≡ (ok tt, s2)
      → s2.accounts.down s2.accounts.queries ≡ false
      → Unique same_slug (by_name s2.accounts.tenants)
      → (launched : Launched) × ((run_worker p schema_name by_name cfg site).0 ≡ ok launched)
        × ((slug : String)
            → filter (reads slug) launched.workers
              ≡ worker_for (find? (has_slug slug) (by_name s2.accounts.tenants)))
  unfolding run_worker
  one_reader_each site s1 s2 pool redis up unique =
      let tenants = by_name s2.accounts.tenants in
      let each = λ (slug : String).
        filter-launch schema_name cfg slug tenants
        ∙ ap (launch schema_name cfg) (filter-Unique slug tenants unique)
        ∙ launch-all_of (find? (has_slug slug) tenants) in
      let start = λ (ts : List GlobalTenant). pure {S = Site} (launched_for schema_name cfg ts) in
      let ran =
        >>=-ok (p.new_postgres_pool cfg.database_url)
          (λ _. p.new_redis_client cfg.redis_url >>= λ _. list_tenants by_name >>= start) site pool
        ∙ >>=-ok (p.new_redis_client cfg.redis_url) (λ _. list_tenants by_name >>= start) s1 redis
        ∙ >>=-ok (list_tenants by_name) start s2 (list_tenants_ran by_name s2 up) in
      (launched_for schema_name cfg tenants, ap (λ r. r.0) ran, each)
