-- ===== src/Db/Sample.antt =====
-- A database without rows whose queries are all answered, for the tests.
use ticketowl.Db.{Db}
use ticketowl.Ticket.Types.{Meta}
use ticketowl.Sla.Types.{State, on_track}
use ticketowl.Admin.Types.{ZammadConfig}
use ticketowl.Base.{false, none, some, []}
use ticketowl.Base.Int.{pos}

abbrev pub empty_db : Db
empty_db = record {
  down = λ _. false;
  queries = 0;
  next_id = 100;
  clock = pos 0;
  ticket_meta = [];
  sla_policies = [];
  sla_states = [];
  incident_links = [];
  article_links = [];
  postmortem_links = [];
  internal_notes = [];
  zammad_config = [];
  integration_keys = [];
  customer_orgs = [];
  auto_ticket_rules = [];
  group_roster_mappings = [];
}

abbrev pub sample_meta : Meta
sample_meta = record {
  id = 7;
  zammad_id = 41;
  zammad_number = "10041";
  sla_policy_id = none;
  created_at = pos 0;
  updated_at = pos 0;
}

abbrev pub sample_state : State
sample_state = record {
  id = 1;
  ticket_meta_id = 7;
  response_due_at = some (pos 100_000_000_000);
  resolution_due_at = none;
  response_met_at = none;
  first_breach_alerted_at = none;
  label = on_track;
  paused = false;
  paused_at = none;
  accumulated_pause_secs = pos 3;
  updated_at = pos 0;
}

abbrev pub sample_config : ZammadConfig
sample_config = record {
  id = 5;
  url = "https://zammad.example";
  api_token = "token";
  webhook_secret = "secret";
  pause_statuses = [];
  updated_at = pos 0;
  updated_by = none;
}
