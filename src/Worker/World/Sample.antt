-- ===== src/Worker/World/Sample.antt =====
-- A small world with one breached row, for the tests.
use ticketowl.Worker.Store
use ticketowl.Base.{false, true, Bool, some, [], refl, All, none, ◌∷◌, ◌≡◌}
use ticketowl.Worker.World.{World, Db}
use ticketowl.Worker.Store.{policy_of}
use ticketowl.Ticket.Types.{Meta}
use ticketowl.Sla.Types.{State, Policy, on_track}
use ticketowl.Worker.World.Quiet.{IsQuiet}
use ticketowl.Db.{fits_int4}
use ticketowl.Base.Int.{pos}
use ticketowl.Worker.World.Settle.{IsTracked}

abbrev pub urgent : Policy
urgent = record {
  id = 7;
  name = "Urgent";
  priority = "high";
  response_minutes = pos 60;
  resolution_minutes = pos 480;
  warning_threshold = pos 200;
  is_default = true;
  created_at = pos 0;
  updated_at = pos 0;
}

abbrev pub ticket : Meta
ticket = record {
  id = 1;
  zammad_id = 42;
  zammad_number = "T42";
  sla_policy_id = some 7;
  created_at = pos 0;
  updated_at = pos 0;
}

abbrev pub open_state : State
open_state = record {
  id = 11;
  ticket_meta_id = 1;
  response_due_at = some (pos 3600);
  resolution_due_at = some (pos 28800);
  response_met_at = none;
  first_breach_alerted_at = none;
  label = on_track;
  paused = false;
  paused_at = none;
  accumulated_pause_secs = pos 0;
  updated_at = pos 0;
}

abbrev pub tables : Db
tables = record {
  down = λ n. false;
  queries = 0;
  next_id = 100;
  clock = pos 0;
  ticket_meta = ticket ∷ [];
  sla_policies = urgent ∷ [];
  sla_states = open_state ∷ [];
  incident_links = [];
  article_links = [];
  postmortem_links = [];
  internal_notes = [];
  zammad_config = [];
  integration_keys = [];
  customer_orgs = [];
  auto_ticket_rules = [];
  group_roster_mappings = [];
}

abbrev pub world : World
world = record {
  db = tables;
  delivered = λ n. true;
  answered = λ n. true;
  reply = λ req. record { id = "a1"; name = "SLA Breach"; severity = "high"; status = "firing" };
  alert_calls = 0;
  alerts = [];
}

abbrev pub never : World → Bool
never w = false

pub world-IsQuiet : IsQuiet world
world-IsQuiet = record { up = λ n. refl; arrives = λ n. refl; answers = λ n. refl }

pub world-IsTracked :
    All
      (λ s. Store.is_breached (pos 4000) s ≡ true → IsTracked (ticket ∷ []) (urgent ∷ []) s)
      (open_state ∷ [])
unfolding fits_int4
world-IsTracked = (
  λ h. record {
    ticket = ticket;
    policy_id = 7;
    policy = urgent;
    ticket_found = refl;
    ticket_known = refl;
    has_policy = refl;
    policy_found = refl;
    fits = refl;
  },
  tt,
)
