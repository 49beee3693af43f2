-- ===== src/Worker/Budget/Laws.antt =====
-- internal/worker/slapoller.go: no cycle spends more than the budget.
use ticketowl.Base.{
  List, Bool, arith, any, All, false, ◌&&◌, ◌∷◌, filter, Bool-cases, inl, inr, [], true,
  Option-cases, ◌≤◌, ◌+◌, Option, ◌≡◌, find?, ℕ, some, refl, ap, none, is_some, sym, ◌∙◌,
}
use ticketowl.Base.Unique.{All-map, Unique-filter}
use ticketowl.Db.{fits_int4, Db}
use ticketowl.Db.Keys.{same_state}
use ticketowl.Worker.Poller
use ticketowl.Worker.Store
use ticketowl.Worker.World.{World, db_store, create_alert, poll_once, run_poller}
use ticketowl.Worker.World.Quiet.{
  connected_ran, later, list_active_states_ran, list_breached_tickets_ran,
}
use ticketowl.Worker.Budget.{IsReady, Spends, Ticket, alerts_of}
use ticketowl.Base.Table.{find?_sound}
use ticketowl.Sla.Store.{of_ticket}
use ticketowl.Worker.Handler.Queries.{eq_sound}
use ticketowl.Base.Unique.{Unique}
use ticketowl.Worker.Budget.Rows.{
  share_same, cost, Agrees, unalerted, Unique-written, Fits-written, unalerted-written,
  Agrees-written, Agrees-All,
}
use ticketowl.Worker.Budget.Steps.{Spends-refl, Spends-trans}
use ticketowl.Sla.Store.{has_meta_id}
use ticketowl.Sla.Types.{Time, State, Uuid}
use ticketowl.Worker.Types.{ActiveSlaState}
use ticketowl.Db.Keys.Owners.{&&-true}
use ticketowl.Worker.Budget.Loop.{breach_loop-Spends, is_breached-Pending}

-- the warning phase: a write that leaves the time of the alert
warn-Spends :
    {k : Ticket} (cancelled : World → Bool) (now : Time) (a : ActiveSlaState) (w : World)
    → IsReady k w
    → Agrees w.db.sla_states a.state
    → let w' = Poller.warn db_store create_alert cancelled now a w in
      Spends k w w' × ((t : State) → Agrees w.db.sla_states t → Agrees w'.db.sla_states t)
unfolding Poller.warn db_store Store.upsert_state
warn-Spends {k} cancelled now a w r (x, found, says) =
    let s = Poller.warned now a.state in
    let rows = w.db.sla_states in
    let accepted =
      fits_int4 s.accumulated_pause_secs && any (has_meta_id s.ticket_meta_id) w.db.ticket_meta in
    elim (Bool-cases (Poller.is_on_track a.state.label && Poller.should_warn now a)) [
      | inr stays ↦ rw stays (Spends-refl w r, λ t agrees. agrees)
      | inl warns ↦ rw warns (
          rw (connected_ran _ w.db r.up) (elim (Bool-cases accepted) [
            | inr refused ↦ rw refused (
              record {
                ready = record {
                  up = r.up;
                  replies = r.replies;
                  unique = r.unique;
                  fit = r.fit;
                  metas = r.metas;
                  own_number = r.own_number;
                };
                spent = omega arith;
              },
              λ t agrees. agrees,
            )
            | inl passed ↦ rw passed (
              record {
                ready = record {
                  up = r.up;
                  replies = r.replies;
                  unique = Unique-written s rows r.unique;
                  fit = Fits-written s rows ((&&-true _ _ passed).0) r.fit;
                  metas = r.metas;
                  own_number = r.own_number;
                };
                spent = omega (
                  arith,
                  unalerted-written k.meta.id s x rows found,
                  share_same k.meta.id s x (find?_sound (of_ticket s.ticket_meta_id) rows found)
                      says,
                );
              },
              λ t agrees. Agrees-written s t rows (x, found, says) agrees,
            )
          ]))
    ]

active-All :
    (P : State → Type 0) (db : Db) (rows : List State)
    → All P rows
    → All (λ a. P a.state) (Store.active_rows db rows)
unfolding Store.active_rows
active-All P db [] h = tt
active-All P db (x ∷ rows) (h, rest) =
    let others = active-All P db rows rest in
    elim (Bool-cases (Store.is_active x)) [
      | inr other ↦ rw other others
      | inl active ↦ rw active (elim (Option-cases (Store.policy_of db x)) [
        | inl e ↦ rw e others
        | inr (p, e) ↦ rw e (h, others)
      ])
    ]

warning_loop-Spends :
    {k : Ticket} (cancelled : World → Bool) (now : Time) (active : List ActiveSlaState) (w : World)
    → IsReady k w
    → All (λ a. Agrees w.db.sla_states a.state) active
    → Spends k w (Poller.warning_loop db_store create_alert cancelled now active w)
unfolding Poller.warning_loop
warning_loop-Spends cancelled now [] w r all = Spends-refl w r
warning_loop-Spends cancelled now (a ∷ active) w r (agrees, all) =
    let w' = Poller.warn db_store create_alert cancelled now a w in
    let (first, keeps) = warn-Spends cancelled now a w r agrees in
    let rest =
      All-map (λ b. Agrees w.db.sla_states b.state) (λ b. Agrees w'.db.sla_states b.state)
        (λ b. keeps b.state) active all in
    elim (Bool-cases (cancelled w)) [
      | inl stops ↦ rw stops (Spends-refl w r)
      | inr goes ↦
          rw goes
            (Spends-trans first (warning_loop-Spends cancelled now active w' first.ready rest))
    ]

asked_once : {k : Ticket} (w : World) → IsReady k w → Spends k w (record w { db = later w.db })
asked_once w r = record {
  ready = record {
    up = r.up;
    replies = r.replies;
    unique = r.unique;
    fit = r.fit;
    metas = r.metas;
    own_number = r.own_number;
  };
  spent = omega arith;
}

check_warnings-Spends :
    {k : Ticket} (cancelled : World → Bool) (now : Time) (w : World)
    → IsReady k w
    → Spends k w (Poller.check_warnings db_store create_alert cancelled now w)
unfolding Poller.check_warnings db_store
check_warnings-Spends cancelled now w r =
    let first = asked_once w r in
    let rows = w.db.sla_states in
    rw (list_active_states_ran w.db r.up) (
      unfold Poller.warn_listed in
      Spends-trans first (
        warning_loop-Spends cancelled now (Store.active_rows (later w.db) rows)
          (record w { db = later w.db }) first.ready
          (active-All (Agrees rows) (later w.db) rows (Agrees-All rows r.unique))))

after_breaches-Spends :
    {k : Ticket} (cancelled : World → Bool) (now : Time) (w : World) (x : World × Bool)
    → Spends k w x.0
    → Spends k w (Poller.after_breaches db_store create_alert cancelled now x)
after_breaches-Spends cancelled now w (v, true) first =
    Spends-trans first (check_warnings-Spends cancelled now v first.ready)
after_breaches-Spends cancelled now w (v, false) first = first

poll_once-Spends :
    {k : Ticket} (cancelled : World → Bool) (now : Time) (w : World)
    → IsReady k w
    → Spends k w (poll_once cancelled now w)
unfolding poll_once Poller.poll db_store
poll_once-Spends cancelled now w r =
    let first = asked_once w r in
    let rows = w.db.sla_states in
    rw (list_breached_tickets_ran w.db r.up now) (
      unfold Poller.process_listed in
      after_breaches-Spends cancelled now w _ (
        Spends-trans first (
          breach_loop-Spends cancelled now (filter (Store.is_breached now) rows)
            (record w { db = later w.db }) first.ready
            (Unique-filter same_state (Store.is_breached now) rows r.unique)
            (is_breached-Pending now rows rows r.fit (Agrees-All rows r.unique)))))

run_poller-Spends :
    {k : Ticket} (cancelled : World → Bool) (ticks : List Time) (w : World)
    → IsReady k w
    → Spends k w (run_poller cancelled ticks w)
unfolding run_poller Poller.run_cycles poll_once
run_poller-Spends cancelled [] w r = Spends-refl w r
run_poller-Spends cancelled (now ∷ ticks) w r =
    let first = poll_once-Spends cancelled now w r in
    Spends-trans first (run_poller-Spends cancelled ticks (poll_once cancelled now w) first.ready)

-- With unique keys a ticket has its one row to spend on, or nothing.
abbrev pub allowance : Option State → ℕ
allowance none = 0
allowance (some x) = cost x

allowance-at_most : (o : Option State) → allowance o ≤ 1
allowance-at_most none = omega arith
allowance-at_most (some x) = elim (Bool-cases (is_some x.first_breach_alerted_at)) [
  | inl h ↦ rw h (omega arith)
  | inr h ↦ rw h (omega arith)
]

unalerted-none :
    (k : Uuid) (rows : List State) → any (of_ticket k) rows ≡ false → unalerted k rows ≡ 0
unalerted-none k [] h = refl
unalerted-none k (x ∷ rows) h = ground (arith, h, unalerted-none k rows)

unalerted-allowance :
    (k : Uuid) (rows : List State)
    → Unique same_state rows
    → unalerted k rows ≡ allowance (find? (of_ticket k) rows)
unalerted-allowance k [] unique = refl
unalerted-allowance k (x ∷ rows) (alone, unique) = elim (Bool-cases (of_ticket k x)) [
  | inl own ↦
      let key = eq_sound x.ticket_meta_id k own in
      let rest = unalerted-none k rows (ap (λ i. any (of_ticket i) rows) (sym key) ∙ alone) in
      rw own (omega (arith, rest))
  | inr other ↦ rw other (omega (arith, unalerted-allowance k rows unique))
]

-- Through any number of cycles at any times, wherever the loops over the rows are cut off and whichever
-- alerts fail, NightOwl gets at most one further alert that names the number of a ticket, and none if
-- the ticket has no SLA state or its state was alerted before. The database answers its queries, an
-- alert that reaches NightOwl is answered, no ticket has two rows, the rows fit their columns, and no
-- other ticket has the number.
pub one_alert_each :
    (k : Ticket) (cancelled : World → Bool) (ticks : List Time) (w : World)
    → IsReady k w
    → (alerts_of k (run_poller cancelled ticks w)
        ≤ alerts_of k w + allowance (find? (of_ticket k.meta.id) w.db.sla_states))
      × (allowance (find? (of_ticket k.meta.id) w.db.sla_states) ≤ 1)
one_alert_each k cancelled ticks w r = (
  omega (
    arith,
    (run_poller-Spends cancelled ticks w r).spent,
    unalerted-allowance k.meta.id w.db.sla_states r.unique,
  ),
  allowance-at_most (find? (of_ticket k.meta.id) w.db.sla_states),
)
