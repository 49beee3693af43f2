-- ===== src/Seed/Laws.antt =====
-- internal/seed/seed.go: what a new tenant has.
use ticketowl.Base.{
  [], List, String, suc, ◌≡◌, ◌∷◌, ℕ, All, ◌++◌, false, any, ok, true, >>=-ok, refl, ◌>>=◌, ◌∙◌,
  find?, some, pure, ap,
}
use ticketowl.Db.{Db, query, fits_int4, fits_numeric}
use ticketowl.Sla.Store as SlaStore
use ticketowl.Sla.Types.{Policy}
use ticketowl.ClientResolver
use ticketowl.Seed.Tenant.{
  PolicySeed, seed_sla_policies, policy_seeds, seed_zammad_config, KeySeed, insert_key,
  seed_integration_keys, seed_tenant, key_seeds, seed_request, seeded_config, seeded_key, text_or,
}
use ticketowl.Admin.Store.{get_zammad_config, get_integration_key, of_service}
use ticketowl.Admin.Types.{IntegrationKey}

-- a database whose tables are as the migrations leave them
abbrev pub blank : Db → Db
blank db = record db { sla_policies = []; zammad_config = []; integration_keys = [] }

abbrev policy_added : PolicySeed → Db → Db
policy_added p db = record db {
  queries = suc db.queries;
  next_id = suc db.next_id;
  sla_policies = db.sla_policies ++ SlaStore.new_policy (seed_request p) db ∷ [];
}

create_policy-adds :
    (p : PolicySeed) (db : Db)
    → db.down db.queries ≡ false
    → SlaStore.fits (SlaStore.new_policy (seed_request p) db) ≡ true
    → any (SlaStore.same_slot p.priority true) db.sla_policies ≡ false
    → SlaStore.create_policy (seed_request p) db
      ≡ (ok (SlaStore.new_policy (seed_request p) db), policy_added p db)
unfolding SlaStore.create_policy query
create_policy-adds p db up fits free = rw up (rw (fits, free) refl)

abbrev with_policies : List PolicySeed → Db → Db
with_policies [] db = db
with_policies (p ∷ ps) db = with_policies ps (policy_added p db)

-- each row fits and finds its slot free
abbrev Addable : List PolicySeed → Db → Type 0
Addable [] db = Unit {0}
Addable (p ∷ ps) db =
    (SlaStore.fits (SlaStore.new_policy (seed_request p) db) ≡ true)
    × (any (SlaStore.same_slot p.priority true) db.sla_policies ≡ false)
    × Addable ps (policy_added p db)

seed_sla_policies-adds :
    (ps : List PolicySeed) (db : Db)
    → ((n : ℕ) → db.down n ≡ false)
    → Addable ps db
    → seed_sla_policies ps db ≡ (ok tt, with_policies ps db)
unfolding seed_sla_policies
seed_sla_policies-adds [] db up fit = refl
seed_sla_policies-adds (p ∷ ps) db up (fits, free, rest) =
    >>=-ok (SlaStore.create_policy (seed_request p)) (λ _. seed_sla_policies ps) db
      (create_policy-adds p db (up db.queries) fits free)
    ∙ seed_sla_policies-adds ps (policy_added p db) up rest

policies-Addable : (db : Db) → Addable policy_seeds (blank db)
unfolding fits_int4 fits_numeric
policies-Addable db = (refl, refl, (refl, refl, (refl, refl, (refl, refl, tt))))

abbrev config_added : String → String → Db → Db
config_added url token db = record db {
  queries = suc db.queries;
  next_id = suc db.next_id;
  zammad_config = db.zammad_config ++ seeded_config url token db ∷ [];
}

seed_zammad_config-adds :
    (url token : String) (db : Db)
    → db.down db.queries ≡ false
    → seed_zammad_config url token db ≡ (ok tt, config_added url token db)
unfolding seed_zammad_config query
seed_zammad_config-adds url token db up = rw up refl

abbrev key_added : KeySeed → Db → Db
key_added k db = record db {
  queries = suc db.queries;
  next_id = suc db.next_id;
  integration_keys = db.integration_keys ++ seeded_key k db ∷ [];
}

insert_key-adds :
    (k : KeySeed) (db : Db)
    → db.down db.queries ≡ false
    → any (of_service k.service) db.integration_keys ≡ false
    → insert_key k db ≡ (ok tt, key_added k db)
unfolding insert_key query
insert_key-adds k db up free = rw up (rw free refl)

abbrev with_keys : List KeySeed → Db → Db
with_keys [] db = db
with_keys (k ∷ ks) db = with_keys ks (key_added k db)

abbrev Insertable : List KeySeed → Db → Type 0
Insertable [] db = Unit {0}
Insertable (k ∷ ks) db =
    (any (of_service k.service) db.integration_keys ≡ false) × Insertable ks (key_added k db)

seed_integration_keys-adds :
    (ks : List KeySeed) (db : Db)
    → ((n : ℕ) → db.down n ≡ false)
    → Insertable ks db
    → seed_integration_keys ks db ≡ (ok tt, with_keys ks db)
unfolding seed_integration_keys
seed_integration_keys-adds [] db up free = refl
seed_integration_keys-adds (k ∷ ks) db up (free, rest) =
    >>=-ok (insert_key k) (λ _. seed_integration_keys ks) db
      (insert_key-adds k db (up db.queries) free)
    ∙ seed_integration_keys-adds ks (key_added k db) up rest

-- the tenant's database once it is seeded
abbrev pub seeded : String → String → Db → Db
seeded url token db =
    with_keys key_seeds (config_added url token (with_policies policy_seeds (blank db)))

pub seed_tenant-seeds :
    (url token : String) (db : Db)
    → ((n : ℕ) → db.down n ≡ false)
    → seed_tenant url token (blank db) ≡ (ok tt, seeded url token db)
unfolding seed_tenant
seed_tenant-seeds url token db up =
    let db1 = with_policies policy_seeds (blank db) in
    let db2 = config_added url token db1 in
    let config_then_keys =
      λ (_ : Unit {0}). seed_zammad_config url token >>= λ _. seed_integration_keys key_seeds in
    >>=-ok (seed_sla_policies policy_seeds) config_then_keys (blank db)
      (seed_sla_policies-adds policy_seeds (blank db) up (policies-Addable db))
    ∙ >>=-ok (seed_zammad_config url token) (λ _. seed_integration_keys key_seeds) db1
        (seed_zammad_config-adds url token db1 (up db1.queries))
    ∙ seed_integration_keys-adds key_seeds db2 up (refl, (refl, tt))

-- The default policy of a priority is the seeded one.
abbrev pub HasDefault : Db → PolicySeed → Type 0
HasDefault db p =
    (q : Policy) × ((SlaStore.get_default_policy_by_priority p.priority db).0 ≡ ok q)
    × (q.response_minutes ≡ p.response_minutes)
    × (q.resolution_minutes ≡ p.resolution_minutes)

pub record IsServed {C : Type 0} (make : String → String → C) (url token : String) (db : Db)
    : Type 0 where
  pub policies : All (HasDefault db) policy_seeds
  pub zammad :
      (ClientResolver.zammad_client make db).0
      ≡ ok (
          make (text_or "http://localhost:3003" url) (text_or "dev-zammad-token-placeholder" token))
  pub nightowl :
      (ClientResolver.nightowl_client make db).0
      ≡ ok (make "http://localhost:8080" "ow_dev_seed_key_do_not_use_in_production")
  pub bookowl :
      (ClientResolver.bookowl_client make db).0
      ≡ ok (make "http://localhost:8081" "bw_dev_seed_key_do_not_use_in_production")
  pub secret : (ClientResolver.webhook_secret db).0 ≡ ok "dev-webhook-secret-placeholder"

module _ (url token : String) (db : Db) (up : (n : ℕ) → db.down n ≡ false) where
  abbrev read : Db
  read = let d = seeded url token db in record d { queries = suc d.queries }

  default_found :
      (priority : String) {q : Policy}
      → find? (SlaStore.same_slot priority true) (seeded url token db).sla_policies ≡ some q
      → (SlaStore.get_default_policy_by_priority priority (seeded url token db)).0 ≡ ok q
  unfolding SlaStore.get_default_policy_by_priority query
  default_found priority h = rw (up (seeded url token db).queries) (rw h refl)

  config_read :
      get_zammad_config (seeded url token db)
      ≡ (ok (seeded_config url token (with_policies policy_seeds (blank db))), read)
  unfolding get_zammad_config query
  config_read = rw (up (seeded url token db).queries) refl

  key_read :
      (service : String) {k : IntegrationKey}
      → find? (of_service service) (seeded url token db).integration_keys ≡ some k
      → get_integration_key service (seeded url token db) ≡ (ok k, read)
  unfolding get_integration_key query
  key_read service h = rw (up (seeded url token db).queries) (rw h refl)

  pub seeded-IsServed :
      {C : Type 0} (make : String → String → C) → IsServed make url token (seeded url token db)
  unfolding ClientResolver.zammad_client ClientResolver.nightowl_client
      ClientResolver.bookowl_client ClientResolver.webhook_secret
  seeded-IsServed make =
      let d = seeded url token db in
      let of_key = λ (k : IntegrationKey). pure (make k.api_url k.api_key) in
      record {
        policies = (
          (_, default_found _ refl, refl, refl),
          (
            (_, default_found _ refl, refl, refl),
            ((_, default_found _ refl, refl, refl), ((_, default_found _ refl, refl, refl), tt)),
          ),
        );
        zammad =
            ap (λ x. x.0)
              (>>=-ok get_zammad_config (λ c. pure (make c.url c.api_token)) d config_read);
        nightowl =
            ap (λ x. x.0)
              (>>=-ok (get_integration_key "nightowl") of_key d (key_read "nightowl" refl));
        bookowl =
            ap (λ x. x.0)
              (>>=-ok (get_integration_key "bookowl") of_key d (key_read "bookowl" refl));
        secret =
            ap (λ x. x.0) (>>=-ok get_zammad_config (λ c. pure c.webhook_secret) d config_read);
      }
