-- ===== src/Worker/Races/Tests.antt =====
-- A pause between the poller's read and its write.
use ticketowl.Base.{◌≡◌, true, refl, ok, find?, some, false}
use ticketowl.Worker.Clock
use ticketowl.Worker.Store
use ticketowl.Worker.Poller
use ticketowl.Worker.Races.{pause_lost}
use ticketowl.Worker.Types.{ZammadEvent}
use ticketowl.Worker.World.Sample.{world, never, world-IsQuiet, world-IsTracked, ticket, open_state}
use ticketowl.Sla.Store as SlaStore
use ticketowl.Base.Int.{pos}
use ticketowl.Worker.Handler.Update.{handle_ticket_update}
use ticketowl.Worker.World.{db_store}
use ticketowl.Worker.World.{create_alert}

abbrev pending : ZammadEvent
pending = record {
  event = "ticket.update";
  ticket_id = 42;
  number = "T42";
  state_id = 3;
  state = "pending close";
  priority = "3 high";
  group = "";
}

pending-pauses : Clock.is_pause_state "pending close" ≡ true
unfolding Clock.is_pause_state
pending-pauses = refl

row_breached : Store.is_breached (pos 4000) open_state ≡ true
unfolding Store.is_breached
row_breached = refl

pause_lost_example :
    let (result, (db', r')) = handle_ticket_update (pos 3990) pending (world.db, tt) in
    let w' =
      Poller.process_breached_state db_store create_alert never open_state
        (pos 4000)
        (record world { db = db' }) in
    (result ≡ ok tt)
    × (find? (SlaStore.of_ticket 1) db'.sla_states ≡ some (Clock.pause (pos 3990) open_state))
    × (find? (SlaStore.of_ticket 1) w'.db.sla_states ≡ some (Poller.alerted (pos 4000) open_state))
    × ((Poller.alerted (pos 4000) open_state).paused ≡ false)
pause_lost_example =
    pause_lost never (pos 4000) (pos 3990) pending world tt ticket open_state world-IsQuiet refl
      refl pending-pauses row_breached (world-IsTracked.0 row_breached)
