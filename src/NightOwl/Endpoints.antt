-- ===== src/NightOwl/Endpoints.antt =====
-- internal/nightowl: the endpoints of alerts.go, incidents.go and oncall.go. `escape` is
-- `url.QueryEscape`, and the JSON of the types is a parameter.
mod Tests
use ticketowl.Base.{String, Option, Action, List, ℕ, if◌then◌else◌, str_eq}
use ticketowl.NightOwl.Types.{CreateAlertRequest, Alert, Incident, OnCallInfo}
use ticketowl.NightOwl.Api.{NightOwlClient}
use ticketowl.Http.Transport.{Transport, decoded}
use ticketowl.Base.Text.{itoa, ◌^^◌}

pub record NightOwlJson : Type 0 where
  pub alert : String → Option Alert
  pub incident : String → Option Incident
  pub incidents : String → Option (List Incident)
  pub on_call : String → Option OnCallInfo
  pub alert_request : CreateAlertRequest → String

module _ {S : Type 0} (c : Transport S) (json : NightOwlJson) (escape : String → String) where
  unfoldable pub create_alert : CreateAlertRequest → Action S Alert
  create_alert req = decoded json.alert (c.post "/api/v1/alerts" (json.alert_request req))

  -- the id as it is, not escaped
  unfoldable pub get_incident : String → Action S Incident
  get_incident incident_id = decoded json.incident (c.get ("/api/v1/incidents/" ^^ incident_id))

  unfoldable pub list_incidents : String → Action S (List Incident)
  list_incidents status = decoded json.incidents (
      c.get (
        if str_eq status ""
        then "/api/v1/incidents"
        else "/api/v1/incidents" ^^ "?status=" ^^ status))

  unfoldable pub search_incidents : String → ℕ → Action S (List Incident)
  unfolding itoa
  search_incidents query limit =
      decoded json.incidents
        (c.get ("/api/v1/incidents/search?q=" ^^ escape query ^^ "&limit=" ^^ itoa limit))

  unfoldable pub get_on_call_for_service : String → Action S OnCallInfo
  get_on_call_for_service service = decoded json.on_call (c.get ("/api/v1/oncall/" ^^ service))

  -- what the worker calls
  abbrev pub worker_client : NightOwlClient S
  worker_client = record { get_on_call_for_service = get_on_call_for_service }
