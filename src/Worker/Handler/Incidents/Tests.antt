-- ===== src/Worker/Handler/Incidents/Tests.antt =====
-- Runs of `handleIncidentCreated`.
use ticketowl.Worker.Types.{AutoTicketRule, NightOwlEvent}
use ticketowl.Worker.Handler.Incidents.{apply_rules, title_of, NightOwlClient}
use ticketowl.Worker.Handler.Incidents.Laws.{Observes, rules_create_each}
use ticketowl.Db.Sample.{empty_db}
use ticketowl.Base.{List, String, ◌∷◌, err, refl, none, true, [], failed, raise, ◌≡◌, ◌++◌, map}
use ticketowl.Zammad.Api.{ZammadClient}
use ticketowl.Base.Int.{pos}

-- Remote services whose state is the titles of the tickets that were asked for; all calls fail.
abbrev Titles : Type 0
Titles = List String

abbrev observed : Titles → List String
observed t = t

abbrev zammad : ZammadClient Titles
zammad = record {
  create_ticket = λ req t. (err failed, t ++ req.title ∷ []);
  update_ticket = λ id req. raise failed;
  search_users_by_email = λ email. raise failed;
}

abbrev nightowl : String → String → NightOwlClient Titles
nightowl url key = record { get_on_call_for_service = λ service. raise failed }

zammad-Observes : Observes observed zammad
zammad-Observes = record {
  creates = λ req t. refl;
  updates = λ id req t. refl;
  searches = λ email t. refl;
}

abbrev created : NightOwlEvent
created = record {
  event = "incident.created";
  incident_id = "42";
  slug = "pod-crash";
  summary = "restarting";
  severity = "high";
  status = "open";
  service = "kubernetes-api";
  created_at = pos 0;
  resolved_at = none;
}

abbrev rule : String → AutoTicketRule
rule template = record {
  id = "1";
  name = "k8s";
  enabled = true;
  alert_group = "";
  min_severity = "";
  default_priority = "normal";
  default_group = "";
  title_template = template;
}

rules_create_each_example :
    observed
      (apply_rules nightowl zammad created 42
        (rule "{{.AlertName}}" ∷ rule "{{.Summary}}" ∷ [])
        (empty_db, [])).1.1
    ≡ [] ++ map (title_of created) (rule "{{.AlertName}}" ∷ rule "{{.Summary}}" ∷ [])
rules_create_each_example =
    rules_create_each observed nightowl zammad (λ url key service r. refl) zammad-Observes created
      42 (rule "{{.AlertName}}" ∷ rule "{{.Summary}}" ∷ []) (empty_db, [])
