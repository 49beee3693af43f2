-- ===== src/Worker/Types.antt =====
-- internal/worker/slapoller.go, autoticket.go and internal/webhook/webhook.go: the data of the worker.
use ticketowl.Base.{ℕ, String, Bool, Option}
use ticketowl.Base.Int.{ℤ}
use ticketowl.Sla.Types.{Time, Uuid, State, Policy}
use ticketowl.Base.{List, Action}

pub record ActiveSlaState : Type 0 where
  pub state : State
  pub response_minutes : ℤ
  pub resolution_minutes : ℤ
  pub warning_threshold : ℤ

pub record TicketMetaInfo : Type 0 where
  pub id : Uuid
  pub zammad_id : ℕ
  pub zammad_number : String
  pub sla_policy_id : Option Uuid
  pub created_at : Time

-- `SLAPollerStore`
pub record SlaPollerStore (S : Type 0) : Type 0 where
  pub list_breached_tickets : Time → Action S (List State)
  pub list_active_states : Action S (List ActiveSlaState)
  pub get_policy_by_id : Uuid → Action S Policy
  pub upsert_state : State → Action S (Unit {0})
  pub get_ticket_meta_by_id : Uuid → Action S TicketMetaInfo

pub record AutoTicketRule : Type 0 where
  pub id : String
  pub name : String
  pub enabled : Bool
  pub alert_group : String
  pub min_severity : String
  pub default_priority : String
  pub default_group : String
  pub title_template : String

pub record ZammadEvent : Type 0 where
  pub event : String
  pub ticket_id : ℕ
  pub number : String
  pub state_id : ℕ
  pub state : String
  pub priority : String
  pub group : String

pub record NightOwlEvent : Type 0 where
  pub event : String
  pub incident_id : String
  pub slug : String
  pub summary : String
  pub severity : String
  pub status : String
  pub service : String
  pub created_at : Time
  pub resolved_at : Option Time
