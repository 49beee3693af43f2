-- ===== src/Worker/World/Once.antt =====
-- A whole cycle of the poller: one alert for each breached row, and none again for it.
use ticketowl.Worker.Poller
use ticketowl.Worker.Store
use ticketowl.Sla.Types.{Time, State}
use ticketowl.Worker.World.{db_store, World, poll_once, create_alert}
use ticketowl.Base.{List, All, ◌≡◌, ◌∙◌, ◌∷◌, filter, false, [], refl, Bool, true, ◌++◌}
use ticketowl.Worker.World.Quiet.{IsQuiet, later, list_breached_tickets_ran}
use ticketowl.Worker.World.Breaches.{DistinctTickets, asked, Apart, breach_loop-IsDone}
use ticketowl.Worker.World.Settle.{IsTracked}
use ticketowl.Worker.World.Warnings.{
  NoneBreached, IsKept, check_warnings-IsKept, NoneBreached-update, filter-NoneBreached,
}

after_breaches-IsKept :
    (cancelled : World → Bool) (now : Time) (r : World × Bool)
    → r.1 ≡ true
    → IsQuiet r.0
    → NoneBreached now r.0.db.sla_states
    → IsKept now r.0 (Poller.after_breaches db_store create_alert cancelled now r)
after_breaches-IsKept cancelled now (w, true) f q k = check_warnings-IsKept cancelled now w q k
after_breaches-IsKept cancelled now (w, false) f q k = cc

Apart-nil : (xs : List State) → Apart [] xs
Apart-nil [] = tt
Apart-nil (x ∷ xs) = (refl, Apart-nil xs)

poll_done :
    (cancelled : World → Bool) (now : Time) (w : World)
    → IsQuiet w
    → ((v : World) → cancelled v ≡ false)
    → DistinctTickets w.db.sla_states
    → All
        (λ s. Store.is_breached now s ≡ true → IsTracked w.db.ticket_meta w.db.sla_policies s)
        w.db.sla_states
    → IsKept now
        (record w {
          alerts = w.alerts ++ asked now w.db.ticket_meta w.db.sla_policies w.db.sla_states;
        })
        (poll_once cancelled now w)
unfolding poll_once Poller.poll db_store
poll_done cancelled now w q go di tr =
    let w' = record w { db = later w.db } in
    let q' : IsQuiet w' = record { up = q.up; arrives = q.arrives; answers = q.answers } in
    let r =
      Poller.breach_loop db_store create_alert cancelled now
        (filter (Store.is_breached now) w.db.sla_states) w' in
    let done =
      breach_loop-IsDone cancelled now [] w.db.sla_states w' go q' (Apart-nil w.db.sla_states) di tr
        refl in
    let kept =
      after_breaches-IsKept cancelled now r done.finished done.quiet
        (rw done.states (NoneBreached-update now w.db.sla_states)) in
    rw (list_breached_tickets_ran w.db q.up now) (
      unfold Poller.process_listed in
      (record { alerts = kept.alerts ∙ done.alerts; quiet = kept.quiet; rows = kept.rows }))

poll_nothing :
    (cancelled : World → Bool) (now : Time) (w : World)
    → IsQuiet w
    → NoneBreached now w.db.sla_states
    → (poll_once cancelled now w).alerts ≡ w.alerts
unfolding poll_once Poller.poll db_store
poll_nothing cancelled now w q k =
    let w' = record w { db = later w.db } in
    let kept =
      check_warnings-IsKept cancelled now w'
        (record { up = q.up; arrives = q.arrives; answers = q.answers }) k in
    rw (list_breached_tickets_ran w.db q.up now) (
      rw (filter-NoneBreached now w.db.sla_states k)
        (unfold Poller.process_listed Poller.breach_loop in kept.alerts))

-- A second cycle at the same time sends no alert, where no call fails and nothing is cancelled, every
-- breached row has its ticket and its policy in the tables and no ticket has two rows.
poll_again_silent :
    (cancelled : World → Bool) (now : Time) (w : World)
    → IsQuiet w
    → ((v : World) → cancelled v ≡ false)
    → DistinctTickets w.db.sla_states
    → All
        (λ s. Store.is_breached now s ≡ true → IsTracked w.db.ticket_meta w.db.sla_policies s)
        w.db.sla_states
    → (poll_once cancelled now (poll_once cancelled now w)).alerts
      ≡ (poll_once cancelled now w).alerts
poll_again_silent cancelled now w q go di tr =
    let done = poll_done cancelled now w q go di tr in
    poll_nothing cancelled now (poll_once cancelled now w) done.quiet done.rows
