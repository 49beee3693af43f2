-- ===== src/Worker/Handler/Tickets.antt =====
-- internal/worker/resolve.go: `handleTicketCreate`.
use ticketowl.Ticket.Store as TicketStore
use ticketowl.Sla.Store as SlaStore
use ticketowl.Worker.Types.{ZammadEvent}
use ticketowl.Base.{
  String, Action, if◌then◌else◌, ◌>>◌, pure, ◌>>=◌, not, some, str_eq, none, ignore,
}
use ticketowl.Zammad.Api.{ZammadClient}
use ticketowl.NightOwl.Api.{NightOwlClient}
use ticketowl.Worker.Handler.Context.{
  zammad_client, acquire_conn, on_db, optional, initial_state, priority_of,
}
use ticketowl.Sla.Types.{Time, Uuid, Policy}
use ticketowl.Db.{Db}
use ticketowl.Ticket.Types.{Meta}
use ticketowl.Worker.Handler.Assign.{auto_assign_ticket}

module _ {R : Type 0} (zammad : String → String → ZammadClient R)
    (nightowl : String → String → NightOwlClient R) where
  abbrev pub assign_created : ZammadEvent → Action (Db × R) (Unit {0})
  assign_created evt =
      if not (str_eq evt.group "")
      then ignore (do
        client ← zammad_client zammad
        auto_assign_ticket nightowl client evt.ticket_id evt.group)
      else pure tt

  abbrev pub start_clock : Time → Uuid → ZammadEvent → Meta → Policy → Action (Db × R) (Unit {0})
  start_clock now new_id evt meta policy = do
    on_db (TicketStore.upsert evt.ticket_id evt.number (some policy.id))
    on_db (SlaStore.upsert_state (initial_state new_id meta.id policy now))
    assign_created evt

  -- `new_id` is the result of uuid.New()
  unfoldable pub handle_ticket_create : Time → Uuid → ZammadEvent → Action (Db × R) (Unit {0})
  handle_ticket_create now new_id evt = do
    acquire_conn
    meta ← on_db (TicketStore.upsert evt.ticket_id evt.number none)
    policy ← optional (on_db (SlaStore.get_default_policy_by_priority (priority_of evt)))
    elim policy [ none ↦ pure tt | some p ↦ start_clock now new_id evt meta p ]
