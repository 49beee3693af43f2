-- ===== src/Worker/Races.antt =====
-- internal/worker: the poller and the event handler on one row of sla_states. The poller reads the rows
-- first (slapoller.go) and writes each as a whole; the handler of an update (resolve.go) may
-- come between.
mod Tests
use ticketowl.Base.{
  List, Bool, ◌≡◌, find?, ℕ, some, false, ◌∙◌, true, ap, none, ok, sym, refl, arith,
}
use ticketowl.Worker.Clock
use ticketowl.Worker.Poller
use ticketowl.Worker.Store as PollerStore
use ticketowl.Worker.World.Breaches.{is_breached-fresh}
use ticketowl.Sla.Store as SlaStore
use ticketowl.Worker.World.Quiet.{IsQuiet}
use ticketowl.Worker.World.Settle.{IsTracked, process_settles, alert_for, settled}
use ticketowl.Worker.Handler.Update.Laws.{handle_ticket_update-found}
use ticketowl.Worker.Handler.Queries.{upsert_state_ok, ticked, eq_self, eq_sound}
use ticketowl.Base.Table.{upsert, upserted, find?-upsert_self, find?_sound}
use ticketowl.Sla.Types.{Time, State, met}
use ticketowl.Worker.World.{World, db_store, create_alert}
use ticketowl.Db.{Db}
use ticketowl.Worker.Types.{ZammadEvent}
use ticketowl.Ticket.Types.{Meta}
use ticketowl.Worker.Handler.Update.{handle_ticket_update}

-- The database after the handler has paused the row.
abbrev paused_db : Time → State → Db → Db
paused_db t s db = record (ticked (ticked (ticked (ticked db)))) {
  sla_states =
      upsert (SlaStore.of_ticket s.ticket_meta_id) (SlaStore.keep_id (Clock.pause t s))
        (Clock.pause t s) db.sla_states;
}

handler_pauses :
    {R : Type 0} (t : Time) (evt : ZammadEvent) (db : Db) (r : R) (m : Meta) (s : State)
    → ((n : ℕ) → db.down n ≡ false)
    → find? (SlaStore.has_zammad_id evt.ticket_id) db.ticket_meta ≡ some m
    → find? (SlaStore.of_ticket m.id) db.sla_states ≡ some s
    → Clock.is_pause_state evt.state ≡ true
    → s.paused ≡ false
    → IsTracked db.ticket_meta db.sla_policies s
    → handle_ticket_update t evt (db, r) ≡ (ok tt, (paused_db t s db, r))
unfolding Clock.clock_step
handler_pauses t evt db r m s up meta state pausing running tracked =
    handle_ticket_update-found t evt db r m s up meta state
    ∙ rw (pausing, running)
        (ap (λ x. (x.0, (x.1, r)))
          (upsert_state_ok (Clock.pause t s) (ticked (ticked (ticked db))) up tracked.fits
            tracked.ticket_known))

is_breached-runs :
    (now : Time) (s : State) → PollerStore.is_breached now s ≡ true → s.paused ≡ false
unfolding PollerStore.is_breached
is_breached-runs now s h = ground arith

-- A row written over the row of its ticket is the one that is found.
written_found :
    (next old : State) (rows : List State)
    → next.id ≡ old.id
    → find? (SlaStore.of_ticket next.ticket_meta_id) rows ≡ some old
    → find?
        (SlaStore.of_ticket next.ticket_meta_id)
        (upsert (SlaStore.of_ticket next.ticket_meta_id) (SlaStore.keep_id next) next rows)
      ≡ some next
written_found next old rows same found =
    find?-upsert_self (SlaStore.of_ticket next.ticket_meta_id) (SlaStore.keep_id next) next
      (eq_self next.ticket_meta_id) (λ x h. eq_self next.ticket_meta_id) rows
    ∙ ap (λ o. some (upserted (SlaStore.keep_id next) next o)) found
    ∙ ap (λ i. some (record next { id = i })) (sym same)

-- The poller has read the row `s`, which ListBreachedTickets selects. If then the update that
-- pauses the ticket is handled, and the poller goes on with the row it has read, every call being
-- answered, the row that is left has the alert and runs: the pause is gone.
pub pause_lost :
    {R : Type 0} (cancelled : World → Bool) (now t : Time) (evt : ZammadEvent) (w : World) (r : R)
    (m : Meta) (s : State)
    → IsQuiet w
    → find? (SlaStore.has_zammad_id evt.ticket_id) w.db.ticket_meta ≡ some m
    → find? (SlaStore.of_ticket m.id) w.db.sla_states ≡ some s
    → Clock.is_pause_state evt.state ≡ true
    → PollerStore.is_breached now s ≡ true
    → IsTracked w.db.ticket_meta w.db.sla_policies s
    → let (result, (db', r')) = handle_ticket_update t evt (w.db, r) in
      let w' =
        Poller.process_breached_state db_store create_alert cancelled s now
          (record w { db = db' }) in
      (result ≡ ok tt)
      × (find? (SlaStore.of_ticket m.id) db'.sla_states ≡ some (Clock.pause t s))
      × (find? (SlaStore.of_ticket m.id) w'.db.sla_states ≡ some (Poller.alerted now s))
      × ((Poller.alerted now s).paused ≡ false)
pause_lost cancelled now t evt w r m s q meta state pausing breached tracked =
    let running = is_breached-runs now s breached in
    let fresh = is_breached-fresh now s breached in
    let ticket =
      eq_sound s.ticket_meta_id m.id
        (find?_sound (SlaStore.of_ticket m.id) w.db.sla_states state) in
    let own = ap (λ i. find? (SlaStore.of_ticket i) w.db.sla_states) ticket ∙ state in
    let w1 = record w { db = paused_db t s w.db } in
    let paused = written_found (Clock.pause t s) s w.db.sla_states refl own in
    let written =
      written_found (Poller.alerted now s) (Clock.pause t s) w1.db.sla_states refl paused in
    rw (handler_pauses t evt w.db r m s q.up meta state pausing running tracked) (
      rw
        (process_settles cancelled now s w1
          (record { up = q.up; arrives = q.arrives; answers = q.answers }) fresh tracked)
        (
          refl,
          ap (λ i. find? (SlaStore.of_ticket i) w1.db.sla_states) (sym ticket) ∙ paused,
          ap
                (λ i.
                  find? (SlaStore.of_ticket i)
                    (settled now s (alert_for now s tracked) w1).db.sla_states)
                (sym ticket)
              ∙ written,
          running,
        ))
