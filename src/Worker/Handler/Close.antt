-- ===== src/Worker/Handler/Close.antt =====
-- internal/worker/resolve.go: `handleIncidentResolved`.
pub mod Laws
mod Tests
use ticketowl.Ticket.Store as TicketStore
use ticketowl.Link.Store as LinkStore
use ticketowl.Worker.Types.{NightOwlEvent}
use ticketowl.Base.{
  String, Option, Action, List, ◌>>=◌, pure, ◌>>◌, ◌∷◌, or_raise, ignore, invalid, [],
}
use ticketowl.Zammad.Api.{ZammadClient}
use ticketowl.Sla.Types.{Uuid}
use ticketowl.Worker.Handler.Context.{zammad_client, acquire_conn, on_db, on_remote, close_request}
use ticketowl.Link.Types.{IncidentLink}
use ticketowl.Db.{Db}

module _ {R : Type 0} (zammad : String → String → ZammadClient R)
    (parse_uuid : String → Option Uuid) where
  unfoldable pub close_linked : ZammadClient R → IncidentLink → Action (Db × R) (Unit {0})
  close_linked client l = do
    meta ← on_db (TicketStore.get_by_id l.ticket_meta_id)
    ignore (on_remote (client.update_ticket meta.zammad_id close_request))

  -- an error goes on with the next link
  unfoldable pub close_loop : ZammadClient R → List IncidentLink → Action (Db × R) (Unit {0})
  close_loop client [] = pure tt
  close_loop client (l ∷ links) = do ignore (close_linked client l); close_loop client links

  unfoldable pub close_all : List IncidentLink → Action (Db × R) (Unit {0})
  close_all [] = pure tt
  close_all (l ∷ links) = do client ← zammad_client zammad; close_loop client (l ∷ links)

  unfoldable pub handle_incident_resolved : NightOwlEvent → Action (Db × R) (Unit {0})
  handle_incident_resolved evt = do
    acquire_conn
    incident_id ← or_raise (parse_uuid evt.incident_id) invalid
    links ← on_db (LinkStore.list_incident_links_by_incident_id incident_id)
    close_all links
