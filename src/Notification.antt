-- ===== src/Notification.antt =====
-- internal/notification/service.go: the alert for a breached SLA.
use ticketowl.Base.{ℕ, String, [], ◌∷◌, Action, pure, ◌>>=◌}
use ticketowl.Base.Text.{◌^^◌, itoa}
use ticketowl.NightOwl.Types.{CreateAlertRequest, Alert}

pub record BreachInfo : Type 0 where
  pub ticket_zammad_id : ℕ
  pub ticket_number : String
  pub sla_type : String
  pub priority : String

abbrev pub breach_summary : BreachInfo → String
breach_summary info =
    "Ticket #" ^^ info.ticket_number ^^ " has breached SLA (" ^^ info.sla_type ^^ ", "
    ^^ info.priority ^^ " priority)"

unfoldable pub breach_alert : BreachInfo → CreateAlertRequest
breach_alert info = record {
  name = "SLA Breach";
  summary = breach_summary info;
  severity = "high";
  labels =
      ("source", "ticketowl")
      ∷ ("ticket_id", itoa info.ticket_zammad_id)
      ∷ ("ticket_number", info.ticket_number)
      ∷ ("sla_type", info.sla_type)
      ∷ ("priority", info.priority)
      ∷ [];
  annotations = [];
}

-- `create_alert` is `NightOwlAlerter.CreateAlert`.
unfoldable pub alert_sla_breach :
    {S : Type 0} → (CreateAlertRequest → Action S Alert) → BreachInfo → Action S (Unit {0})
alert_sla_breach create_alert info = do alert ← create_alert (breach_alert info); pure tt
