-- ===== src/Worker/Handler/Update.antt =====
-- internal/worker/resolve.go: `handleTicketUpdate`.
pub mod Laws
mod Tests
use ticketowl.Ticket.Store as TicketStore
use ticketowl.Sla.Store as SlaStore
use ticketowl.Worker.Clock
use ticketowl.Worker.Types.{ZammadEvent}
use ticketowl.Base.{Option, Action, ◌>>◌, pure, ◌>>=◌, some, none}
use ticketowl.Worker.Handler.Context.{acquire_conn, on_db, optional}
use ticketowl.Sla.Types.{Time, State}
use ticketowl.Db.{Db}
use ticketowl.Ticket.Types.{Meta}

module _ {R : Type 0} where
  abbrev pub write_step : Option State → Action (Db × R) (Unit {0})
  write_step none = pure tt
  write_step (some s) = on_db (SlaStore.upsert_state s)

  abbrev pub step_clock : Time → ZammadEvent → Option State → Action (Db × R) (Unit {0})
  step_clock now evt none = pure tt
  step_clock now evt (some s) = write_step (Clock.clock_step (Clock.is_pause_state evt.state) now s)

  abbrev pub update_clock : Time → ZammadEvent → Option Meta → Action (Db × R) (Unit {0})
  update_clock now evt none = pure tt
  update_clock now evt (some meta) = do
    state ← optional (on_db (SlaStore.get_state_by_ticket_meta_id meta.id))
    step_clock now evt state

  unfoldable pub handle_ticket_update : Time → ZammadEvent → Action (Db × R) (Unit {0})
  handle_ticket_update now evt = do
    acquire_conn
    meta ← optional (on_db (TicketStore.get_by_zammad_id evt.ticket_id))
    update_clock now evt meta
