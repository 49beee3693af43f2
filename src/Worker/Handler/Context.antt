-- ===== src/Worker/Handler/Context.antt =====
-- internal/worker/resolve.go: the connection, the clients and the values that the handlers build. The
-- state is the tenant's database beside the remote services, and `zammad` and `nightowl` make a client
-- from an address and a token. An error that is only logged is dropped with `ignore`.
use ticketowl.Admin.Store as AdminStore
use ticketowl.Admin.Types.{AutoTicketRule as AdminRule}
use ticketowl.Worker.Types.{AutoTicketRule, ZammadEvent}
use ticketowl.Sla.Compute.{minutes_duration}
use ticketowl.Base.{
  Option, String, Action, get_or, none, some, if◌then◌else◌, ok, str_eq, err, is_no_rows, pure,
  ◌>>=◌, false,
}
use ticketowl.Sla.Types.{Uuid, Policy, Time, State, on_track}
use ticketowl.Zammad.Types.{TicketUpdateRequest, TicketCreateRequest}
use ticketowl.Db.{Db, query}
use ticketowl.Zammad.Api.{ZammadClient}
use ticketowl.NightOwl.Api.{NightOwlClient}
use ticketowl.Base.Int.{◌+ℤ◌, pos}

-- `derefString`
abbrev pub deref_string : Option String → String
deref_string o = get_or o ""

-- the admin's rule as the worker's; `id_text` is `uuid.UUID.String`
abbrev pub to_rule : (Uuid → String) → AdminRule → AutoTicketRule
to_rule id_text r = record {
  id = id_text r.id;
  name = r.name;
  enabled = r.enabled;
  alert_group = deref_string r.alert_group;
  min_severity = deref_string r.min_severity;
  default_priority = r.default_priority;
  default_group = deref_string r.default_group;
  title_template = r.title_template;
}

abbrev pub no_update : TicketUpdateRequest
no_update = record { state_id = none; priority_id = none; owner_id = none; group_id = none }

abbrev pub close_request : TicketUpdateRequest
close_request = record no_update { state_id = some 4 }

abbrev pub ticket_request : String → TicketCreateRequest
ticket_request title = record {
  title = title;
  group_id = 1;
  customer_id = 1;
  customer = "";
  state_id = 0;
  priority_id = 0;
  article = none;
}

-- the state of a ticket whose clock starts at `now`
abbrev pub initial_state : Uuid → Uuid → Policy → Time → State
initial_state new_id meta_id policy now = record {
  id = new_id;
  ticket_meta_id = meta_id;
  response_due_at = some (now +ℤ minutes_duration policy.response_minutes);
  resolution_due_at = some (now +ℤ minutes_duration policy.resolution_minutes);
  response_met_at = none;
  first_breach_alerted_at = none;
  label = on_track;
  paused = false;
  paused_at = none;
  accumulated_pause_secs = pos 0;
  updated_at = now;
}

abbrev pub priority_of : ZammadEvent → String
priority_of evt = if str_eq evt.priority "" then "normal" else evt.priority

-- a query by which a row may be missing
abbrev pub optional : {S A : Type 0} → Action S A → Action S (Option A)
optional m s =
    let (r, s') = m s in
    elim r [
      | ok a ↦ (ok (some a), s')
      | err e ↦ if is_no_rows e then (ok none, s') else (err e, s')
    ]

module _ {R : Type 0} where
  abbrev pub on_db : {A : Type 0} → Action Db A → Action (Db × R) A
  on_db m (db, r) = let (x, db') = m db in (x, (db', r))

  abbrev pub on_remote : {A : Type 0} → Action R A → Action (Db × R) A
  on_remote m (db, r) = let (x, r') = m r in (x, (db, r'))

  -- `acquireConn`: a failing Acquire and a failing SET search_path end alike
  unfoldable pub acquire_conn : Action (Db × R) (Unit {0})
  acquire_conn = on_db (query (pure tt))

module _ {R : Type 0} (zammad : String → String → ZammadClient R) where
  unfoldable pub zammad_client : Action (Db × R) (ZammadClient R)
  zammad_client = do cfg ← on_db AdminStore.get_zammad_config; pure (zammad cfg.url cfg.api_token)

module _ {R : Type 0} (nightowl : String → String → NightOwlClient R) where
  unfoldable pub nightowl_client : Action (Db × R) (NightOwlClient R)
  nightowl_client = do
    key ← on_db (AdminStore.get_integration_key "nightowl")
    pure (nightowl key.api_url key.api_key)
