-- ===== src/Admin/Handler.antt =====
-- internal/admin/handler.go: the configuration of a tenant; the children have the customers'
-- organisations, the rules and the roster mappings. `req` is the decoded body, none if it is not the
-- JSON of the request, and `caller` is `callerUUID`.
pub mod Orgs
pub mod Rules
pub mod Rosters
pub mod Secrets
mod Tests
use ticketowl.Base.{
  ℕ, String, Option, none, some, Result, ok, err, Error, Action, Bool, true, false, not, ◌||◌,
  str_eq, if◌then◌else◌, List, attempt, is_no_rows,
}
use ticketowl.Base.Text.{◌^^◌}
use ticketowl.Sla.Types.{Uuid}
use ticketowl.Db.{Db}
use ticketowl.Admin.Types.{
  ZammadConfig, ZammadConfigSummary, IntegrationKey, IntegrationKeySummary, ConfigOverview,
  TestZammadRequest, UpdateZammadConfigRequest, UpdateZammadPauseStatusesRequest,
  UpdateIntegrationKeyRequest,
}
use ticketowl.Admin.Store.{
  get_zammad_config, upsert_zammad_config, update_zammad_pause_statuses, get_integration_key,
  upsert_integration_key,
}
use ticketowl.Http.Respond.{Handled, respond, respond_error, call, parsed}

-- `uuid.UUID{}`
abbrev pub nil_uuid : Uuid
nil_uuid = 0

-- of the user that the request's identity names
abbrev pub caller_uuid : Option (Option Uuid) → Uuid
caller_uuid (some (some id)) = id
caller_uuid _ = nil_uuid

abbrev pub summary_of : ZammadConfig → ZammadConfigSummary
summary_of c = record {
  url = c.url;
  has_token = not (str_eq c.api_token "");
  pause_statuses = c.pause_statuses;
  updated_at = c.updated_at;
}

abbrev pub key_summary : IntegrationKey → IntegrationKeySummary
key_summary k = record { api_url = k.api_url; updated_at = k.updated_at }

-- an error is logged at most, and leaves the pointer nil
abbrev pub optional_key : Result IntegrationKey → Option IntegrationKeySummary
optional_key (ok k) = some (key_summary k)
optional_key (err e) = none

-- only a missing row is no error
abbrev pub with_zammad :
    Result ZammadConfig
    → (Option ZammadConfigSummary → Handled Db ConfigOverview)
    → Handled Db ConfigOverview
with_zammad (ok c) k = k (some (summary_of c))
with_zammad (err e) k =
    if is_no_rows e then k none else respond_error 500 "internal_error" "failed to get config"

abbrev pub add_keys : Bool → Option ZammadConfigSummary → Handled Db ConfigOverview
add_keys managed zammad db =
    let (nightowl, db1) = get_integration_key "nightowl" db in
    let (bookowl, db2) = get_integration_key "bookowl" db1 in
    respond 200
      (record {
        managed = managed;
        zammad = zammad;
        nightowl = optional_key nightowl;
        bookowl = optional_key bookowl;
      })
      db2

unfoldable pub handle_get_config : Bool → Handled Db ConfigOverview
handle_get_config managed db =
    let (cfg, db') = get_zammad_config db in with_zammad cfg (add_keys managed) db'

-- the token is not read again, so the answer says that there is none
abbrev pub updated_summary : ZammadConfig → ZammadConfigSummary
updated_summary c = record {
  url = c.url;
  has_token = false;
  pause_statuses = c.pause_statuses;
  updated_at = c.updated_at;
}

unfoldable pub handle_update_zammad_config :
    Option UpdateZammadConfigRequest → Uuid → Handled Db ZammadConfigSummary
handle_update_zammad_config body caller =
    parsed body (respond_error 400 "bad_request" "invalid request body") λ req.
      if str_eq req.url "" || str_eq req.api_token ""
      then respond_error 400 "bad_request" "url and api_token are required"
      else call (upsert_zammad_config req caller)
          (λ e. respond_error 500 "internal_error" "failed to update config")
          (λ c. respond 200 (updated_summary c))

pub record TestResult : Type 0 where
  pub success : Bool
  pub error : Option String

abbrev pub test_result : (Error → String) → Result (Unit {0}) → TestResult
test_result error_text (ok done) = record { success = true; error = none }
test_result error_text (err e) = record { success = false; error = some (error_text e) }

-- A tester asks Zammad at an address with a token, and `error_text` is the text of its error.
module _ (tester : Option (String → String → Result (Unit {0}))) (error_text : Error → String) where
  abbrev pub tested :
      ((String → String → Result (Unit {0})) → Handled Db TestResult) → Handled Db TestResult
  tested = parsed tester (respond_error 503 "unavailable" "zammad test not configured")

  unfoldable pub handle_test_zammad : Option TestZammadRequest → Handled Db TestResult
  handle_test_zammad body = tested λ test_connection.
      parsed body (respond_error 400 "bad_request" "invalid request body") λ req.
        if str_eq req.url "" || str_eq req.api_token ""
        then respond_error 400 "bad_request" "url and api_token are required"
        else respond 200 (test_result error_text (test_connection req.url req.api_token))

  unfoldable pub handle_test_stored_zammad : Handled Db TestResult
  handle_test_stored_zammad = tested λ test_connection.
      call get_zammad_config
        (λ e.
          if is_no_rows e
          then respond_error 404 "not_found" "zammad not configured"
          else respond_error 500 "internal_error" "failed to get config")
        λ cfg.
          if str_eq cfg.url "" || str_eq cfg.api_token ""
          then respond_error 400 "bad_request" "zammad url or token not configured"
          else respond 200 (test_result error_text (test_connection cfg.url cfg.api_token))

-- answers {"ok": true}
unfoldable pub handle_update_pause_statuses :
    Option UpdateZammadPauseStatusesRequest → Uuid → Handled Db Bool
handle_update_pause_statuses body caller =
    parsed body (respond_error 400 "bad_request" "invalid request body") λ req.
      call (update_zammad_pause_statuses req.pause_statuses caller)
        (λ e.
          if is_no_rows e
          then respond_error 404 "not_found" "zammad not configured"
          else respond_error 500 "internal_error" "failed to update pause statuses")
        (λ done. respond 200 true)

unfoldable pub handle_update_integration_key :
    String → Option UpdateIntegrationKeyRequest → Handled Db IntegrationKeySummary
handle_update_integration_key service body =
    parsed body (respond_error 400 "bad_request" "invalid request body") λ req.
      if str_eq req.api_url "" || str_eq req.api_key ""
      then respond_error 400 "bad_request" "api_url and api_key are required"
      else call (upsert_integration_key service req)
          (λ e. respond_error 500 "internal_error" ("failed to update " ^^ service ^^ " config"))
          (λ k. respond 200 (key_summary k))
