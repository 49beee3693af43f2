-- ===== src/Worker/Handler/Update/Tests.antt =====
-- Runs of `handleTicketUpdate`.
use ticketowl.Worker.Clock
use ticketowl.Worker.Types.{ZammadEvent}
use ticketowl.Worker.Handler.Update.{handle_ticket_update}
use ticketowl.Worker.Handler.Update.Laws.{update_writes_step}
use ticketowl.Sla.Store as SlaStore
use ticketowl.Db.Sample.{empty_db, sample_meta, sample_state}
use ticketowl.Db.{Db, fits_int4}
use ticketowl.Base.Int.{pos}
use ticketowl.Base.{◌∷◌, [], true, ok, find?, some, ◌≡◌, refl}

abbrev tracked : Db
tracked = record empty_db { ticket_meta = sample_meta ∷ []; sla_states = sample_state ∷ [] }

abbrev pending : ZammadEvent
pending = record {
  event = "ticket.update";
  ticket_id = 41;
  number = "10041";
  state_id = 3;
  state = "pending reminder";
  priority = "2 normal";
  group = "";
}

paused_fits :
    fits_int4
      (Clock.step_state
        (Clock.is_pause_state "pending reminder")
        (pos 9)
        sample_state).accumulated_pause_secs
    ≡ true
unfolding Clock.clock_step Clock.is_pause_state fits_int4
paused_fits = refl

update_writes_step_example :
    let next = Clock.step_state (Clock.is_pause_state "pending reminder") (pos 9) sample_state in
    let (result, (db', r')) = handle_ticket_update (pos 9) pending (tracked, tt) in
    (result ≡ ok tt)
    × (find? (SlaStore.of_ticket 7) db'.sla_states ≡ some next)
    × (db'.ticket_meta ≡ sample_meta ∷ [])
update_writes_step_example =
    update_writes_step (pos 9) pending tracked tt sample_meta sample_state (λ n. refl) refl refl
      paused_fits
