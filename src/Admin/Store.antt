-- ===== src/Admin/Store.antt =====
-- internal/admin/store.go: the connection to Zammad and the keys of the other services. The children
-- have the customers' organisations, the auto-ticket rules and the rosters of the groups.
pub mod Orgs
pub mod Rules
pub mod Rosters
mod Tests
use ticketowl.Base.Table.{upsert, upserted, update}
use ticketowl.Base.{
  Action, List, String, some, Bool, [], ◌==◌, str_eq, suc, err, ok, find?, no_rows, ◌∷◌, map,
  Option, none, Result, failed,
}
use ticketowl.Admin.Types.{
  UpdateZammadConfigRequest, ZammadConfig, UpdateIntegrationKeyRequest, IntegrationKey,
}
use ticketowl.Db.{Db, query, row}
use ticketowl.Sla.Types.{Uuid, Time}

abbrev pub first_row : List ZammadConfig → Option ZammadConfig
first_row [] = none
first_row (c ∷ rest) = some c

-- LIMIT 1 without an order, as a scan gives it: the first row of the table
unfoldable pub get_zammad_config : Action Db ZammadConfig
get_zammad_config = query λ db. row (first_row db.zammad_config) db

abbrev pub new_config : UpdateZammadConfigRequest → List String → Uuid → Db → ZammadConfig
new_config req statuses updated_by db = record {
  id = db.next_id;
  url = req.url;
  api_token = req.api_token;
  webhook_secret = req.webhook_secret;
  pause_statuses = statuses;
  updated_at = db.clock;
  updated_by = some updated_by;
}

abbrev pub merge_config : ZammadConfig → ZammadConfig → ZammadConfig
merge_config fresh old = record fresh { id = old.id }

abbrev pub write_config : ZammadConfig → Db → Result ZammadConfig × Db
write_config c db =
    let same = λ (x : ZammadConfig). x.id == c.id in
    let db' = record db {
      next_id = suc db.next_id;
      zammad_config = upsert same (merge_config c) c db.zammad_config;
    } in
    (ok (upserted (merge_config c) c (find? same db.zammad_config)), db')

-- ON CONFLICT (id), where the statement leaves the id to gen_random_uuid(); pause_statuses is NOT NULL
unfoldable pub upsert_zammad_config : UpdateZammadConfigRequest → Uuid → Action Db ZammadConfig
upsert_zammad_config req updated_by = query λ db. elim req.pause_statuses [
  | none ↦ (err failed, db)
  | some statuses ↦ write_config (new_config req statuses updated_by db) db
]

abbrev pub set_pause_statuses : List String → Uuid → Time → ZammadConfig → ZammadConfig
set_pause_statuses statuses updated_by now c = record c {
  pause_statuses = statuses;
  updated_by = some updated_by;
  updated_at = now;
}

-- every row of the table; the column is NOT NULL, which only a row that is updated violates
abbrev write_statuses :
    Option (List String) → Uuid → List ZammadConfig → Db → Result (Unit {0}) × Db
write_statuses statuses updated_by [] db = (err no_rows, db)
write_statuses none updated_by (c ∷ rest) db = (err failed, db)
write_statuses (some statuses) updated_by (c ∷ rest) db = (
  ok tt,
  record db { zammad_config = map (set_pause_statuses statuses updated_by db.clock) (c ∷ rest) },
)

unfoldable pub update_zammad_pause_statuses : Option (List String) → Uuid → Action Db (Unit {0})
update_zammad_pause_statuses statuses updated_by =
    query λ db. write_statuses statuses updated_by db.zammad_config db

abbrev pub of_service : String → IntegrationKey → Bool
of_service service k = str_eq k.service service

unfoldable pub get_integration_key : String → Action Db IntegrationKey
get_integration_key service = query λ db. row (find? (of_service service) db.integration_keys) db

abbrev new_key : String → UpdateIntegrationKeyRequest → Db → IntegrationKey
new_key service req db = record {
  id = db.next_id;
  service = service;
  api_key = req.api_key;
  api_url = req.api_url;
  updated_at = db.clock;
}

abbrev merge_key : UpdateIntegrationKeyRequest → Time → IntegrationKey → IntegrationKey
merge_key req now k = record k { api_key = req.api_key; api_url = req.api_url; updated_at = now }

unfoldable pub upsert_integration_key :
    String → UpdateIntegrationKeyRequest → Action Db IntegrationKey
upsert_integration_key service req = query λ db.
    let same = of_service service in
    let merge = merge_key req db.clock in
    let k = new_key service req db in
    let db' = record db {
      next_id = suc db.next_id;
      integration_keys = upsert same merge k db.integration_keys;
    } in
    (ok (upserted merge k (find? same db.integration_keys)), db')
