-- ===== src/Worker/Handler.antt =====
-- internal/worker/resolve.go: `DefaultEventHandler`.
pub mod Context
pub mod Queries
pub mod Assign
pub mod Tickets
pub mod Incidents
pub mod Update
pub mod Close
use ticketowl.Admin.Types.{AutoTicketRule as AdminRule}
use ticketowl.Worker.Types.{ZammadEvent, NightOwlEvent}
use ticketowl.Base.{String, Option, Action, List, if◌then◌else◌, str_eq, pure, raise, invalid}
use ticketowl.Zammad.Api.{ZammadClient}
use ticketowl.NightOwl.Api.{NightOwlClient}
use ticketowl.Sla.Types.{Time, Uuid}
use ticketowl.Db.{Db}

module _ {R : Type 0} (zammad : String → String → ZammadClient R)
    (nightowl : String → String → NightOwlClient R) where
  -- an unknown event is an error
  unfoldable pub handle_zammad_event : Time → Uuid → ZammadEvent → Action (Db × R) (Unit {0})
  handle_zammad_event now new_id evt =
      if str_eq evt.event "ticket.create"
      then Tickets.handle_ticket_create zammad nightowl now new_id evt
      else if str_eq evt.event "ticket.update"
      then Update.handle_ticket_update now evt
      else if str_eq evt.event "article.create"
      then pure tt
      else raise invalid

  module _ (parse_uuid : String → Option Uuid) where
    unfoldable pub handle_nightowl_event :
        (List AdminRule → List AdminRule)
        → (Uuid → String)
        → NightOwlEvent
        → Action (Db × R) (Unit {0})
    handle_nightowl_event by_name id_text evt =
        if str_eq evt.event "incident.created"
        then Incidents.handle_incident_created zammad nightowl parse_uuid by_name id_text evt
        else if str_eq evt.event "incident.resolved"
        then Close.handle_incident_resolved zammad parse_uuid evt
        else raise invalid
