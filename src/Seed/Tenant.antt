-- ===== src/Seed/Tenant.antt =====
-- internal/seed/seed.go: the rows that a new tenant gets.
use ticketowl.Base.{
  String, List, true, Action, ◌∷◌, pure, if◌then◌else◌, ◌++◌, ◌>>=◌, [], str_eq, none, ok, any, suc,
  err, failed,
}
use ticketowl.Base.Int.{ℤ, pos}
use ticketowl.Db.{Db, query}
use ticketowl.Sla.Store as SlaStore
use ticketowl.Sla.Types.{CreatePolicyRequest}
use ticketowl.Admin.Store.{of_service}
use ticketowl.Admin.Types.{ZammadConfig, IntegrationKey}

pub record PolicySeed : Type 0 where
  pub name : String
  pub priority : String
  pub response_minutes : ℤ
  pub resolution_minutes : ℤ

abbrev pub policy_seeds : List PolicySeed
policy_seeds =
    record {
      name = "Critical SLA";
      priority = "critical";
      response_minutes = pos 15;
      resolution_minutes = pos 60;
    }
    ∷ record {
      name = "High SLA";
      priority = "high";
      response_minutes = pos 30;
      resolution_minutes = pos 240;
    }
    ∷ record {
      name = "Normal SLA";
      priority = "normal";
      response_minutes = pos 60;
      resolution_minutes = pos 480;
    }
    ∷ record {
      name = "Low SLA";
      priority = "low";
      response_minutes = pos 120;
      resolution_minutes = pos 1440;
    }
    ∷ []

-- the threshold is the column's default, 0.20
abbrev pub seed_request : PolicySeed → CreatePolicyRequest
seed_request p = record {
  name = p.name;
  priority = p.priority;
  response_minutes = p.response_minutes;
  resolution_minutes = p.resolution_minutes;
  warning_threshold = pos 200;
  is_default = true;
}

-- the statement is the INSERT of CreatePolicy
unfoldable pub seed_sla_policies : List PolicySeed → Action Db (Unit {0})
seed_sla_policies [] = pure tt
seed_sla_policies (p ∷ ps) = SlaStore.create_policy (seed_request p) >>= λ _. seed_sla_policies ps

abbrev pub text_or : String → String → String
text_or default text = if str_eq text "" then default else text

abbrev pub seeded_config : String → String → Db → ZammadConfig
seeded_config url token db = record {
  id = db.next_id;
  url = text_or "http://localhost:3003" url;
  api_token = text_or "dev-zammad-token-placeholder" token;
  webhook_secret = "dev-webhook-secret-placeholder";
  pause_statuses = "pending customer" ∷ [];
  updated_at = db.clock;
  updated_by = none;
}

unfoldable pub seed_zammad_config : String → String → Action Db (Unit {0})
seed_zammad_config url token = query λ db.
    let configs = db.zammad_config ++ seeded_config url token db ∷ [] in
    (ok tt, record db { next_id = suc db.next_id; zammad_config = configs })

pub record KeySeed : Type 0 where
  pub service : String
  pub api_key : String
  pub api_url : String

abbrev pub key_seeds : List KeySeed
key_seeds =
    record {
      service = "nightowl";
      api_key = "ow_dev_seed_key_do_not_use_in_production";
      api_url = "http://localhost:8080";
    }
    ∷ record {
      service = "bookowl";
      api_key = "bw_dev_seed_key_do_not_use_in_production";
      api_url = "http://localhost:8081";
    }
    ∷ []

abbrev pub seeded_key : KeySeed → Db → IntegrationKey
seeded_key k db = record {
  id = db.next_id;
  service = k.service;
  api_key = k.api_key;
  api_url = k.api_url;
  updated_at = db.clock;
}

-- UNIQUE (service)
unfoldable pub insert_key : KeySeed → Action Db (Unit {0})
insert_key k = query λ db.
    let keys = db.integration_keys ++ seeded_key k db ∷ [] in
    if any (of_service k.service) db.integration_keys
    then (err failed, db)
    else (ok tt, record db { next_id = suc db.next_id; integration_keys = keys })

unfoldable pub seed_integration_keys : List KeySeed → Action Db (Unit {0})
seed_integration_keys [] = pure tt
seed_integration_keys (k ∷ ks) = insert_key k >>= λ _. seed_integration_keys ks

-- the three seeds of `Run`, in their order
unfoldable pub seed_tenant : String → String → Action Db (Unit {0})
seed_tenant url token = seed_sla_policies policy_seeds >>= λ _.
    seed_zammad_config url token >>= λ _. seed_integration_keys key_seeds
