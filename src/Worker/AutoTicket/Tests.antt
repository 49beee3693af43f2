-- ===== src/Worker/AutoTicket/Tests.antt =====
-- Runs of internal/worker/autoticket.go.
use ticketowl.Worker.AutoTicket
use ticketowl.Worker.Types.{AutoTicketRule, NightOwlEvent}
use ticketowl.Base.{◌≡◌, true, false, refl, none}
use ticketowl.Base.Int.{pos}
use ticketowl.Base.Text.{has_prefix, ends_with}

abbrev incident : NightOwlEvent
incident = record {
  event = "incident.created";
  incident_id = "42";
  slug = "pod-crash";
  summary = "restarting";
  severity = "HİGH";
  status = "open";
  service = "kubernetes-api";
  created_at = pos 0;
  resolved_at = none;
}

abbrev rule : AutoTicketRule
rule = record {
  id = "1";
  name = "k8s";
  enabled = true;
  alert_group = "kubernetes-";
  min_severity = "Medium";
  default_priority = "normal";
  default_group = "";
  title_template = "{{.AlertName}}: {{.Summary}}";
}

abbrev disabled : AutoTicketRule
disabled = record rule { enabled = false }

test-match_rule :
    (AutoTicket.match_rule rule incident ≡ true)
    × (AutoTicket.match_rule disabled incident ≡ false)
    × (AutoTicket.match_rule (record rule { min_severity = "critical" }) incident ≡ false)
    × (AutoTicket.match_rule (record rule { alert_group = "kubernetes" }) incident ≡ false)
unfolding AutoTicket.match_rule AutoTicket.group_matches AutoTicket.severity_matches has_prefix
    ends_with AutoTicket.severity_rank
test-match_rule = (refl, refl, refl, refl)

test-render_title : AutoTicket.render_title rule.title_template incident ≡ "pod-crash: restarting"
unfolding AutoTicket.render_title
test-render_title = refl
