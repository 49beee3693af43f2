-- ===== src/Worker/World/Warnings.antt =====
-- The warning phase of a cycle: it sends no alert, and no row becomes breached by it.
use ticketowl.Worker.Poller
use ticketowl.Worker.Store
use ticketowl.Sla.Types.{Time, State, Policy}
use ticketowl.Base.Table.{upsert, update}
use ticketowl.Worker.World.{db_store, World, Db, create_alert}
use ticketowl.Base.{
  List, All, ◌≡◌, ◌∙◌, ◌∷◌, filter, false, [], refl, Bool-cases, Option, inl, ◌&&◌, inr, any, some,
  none, Bool,
}
use ticketowl.Worker.World.Quiet.{IsQuiet, connected_ran, later, list_active_states_ran}
use ticketowl.Sla.Store.{of_ticket, keep_id, has_meta_id}
use ticketowl.Db.{fits_int4}
use ticketowl.Worker.Types.{ActiveSlaState}

-- No row of the table is breached and still to be alerted.
abbrev pub NoneBreached : Time → List State → Type 0
NoneBreached now rows = All (λ s. Store.is_breached now s ≡ false) rows

-- What the warning phase keeps.
pub record IsKept (now : Time) (w w' : World) : Type 0 where
  pub alerts : w'.alerts ≡ w.alerts
  pub quiet : IsQuiet w'
  pub rows : NoneBreached now w'.db.sla_states

pub IsKept-trans : {now : Time} {u v w : World} → IsKept now u v → IsKept now v w → IsKept now u w
IsKept-trans h k = record { alerts = k.alerts ∙ h.alerts; quiet = k.quiet; rows = k.rows }

NoneBreached-upsert :
    (now : Time) (s : State) (rows : List State)
    → Store.is_breached now s ≡ false
    → NoneBreached now rows
    → NoneBreached now (upsert (of_ticket s.ticket_meta_id) (keep_id s) s rows)
unfolding upsert Store.is_breached
NoneBreached-upsert now s [] h k = (h, tt)
NoneBreached-upsert now s (x ∷ rows) h k = elim (Bool-cases (of_ticket s.ticket_meta_id x)) [
  | inl same ↦ rw same (h, k.1)
  | inr other ↦ rw other (k.0, NoneBreached-upsert now s rows h k.1)
]

not_breached_alerted :
    (now : Time) (s : State) → Store.is_breached now (Poller.alerted now s) ≡ false
unfolding Store.is_breached
not_breached_alerted now s = refl

pub NoneBreached-update :
    (now : Time) (rows : List State)
    → NoneBreached now (update (Store.is_breached now) (Poller.alerted now) rows)
unfolding update
NoneBreached-update now [] = tt
NoneBreached-update now (x ∷ rows) = (
  elim (Bool-cases (Store.is_breached now x)) [
    | inl h ↦ rw h (not_breached_alerted now x)
    | inr h ↦ rw h h
  ],
  NoneBreached-update now rows,
)

pub filter-NoneBreached :
    (now : Time) (rows : List State)
    → NoneBreached now rows
    → filter (Store.is_breached now) rows ≡ []
filter-NoneBreached now [] h = refl
filter-NoneBreached now (x ∷ rows) h = rw h.0 (filter-NoneBreached now rows h.1)

joined-NoneBreached :
    (now : Time) (s : State) (p : Option Policy) (others : List ActiveSlaState)
    → Store.is_breached now s ≡ false
    → All (λ a. Store.is_breached now a.state ≡ false) others
    → All (λ a. Store.is_breached now a.state ≡ false) (Store.joined s p others)
joined-NoneBreached now s none others h k = k
joined-NoneBreached now s (some p) others h k = (h, k)

active-NoneBreached :
    (now : Time) (db : Db) (rows : List State)
    → NoneBreached now rows
    → All (λ a. Store.is_breached now a.state ≡ false) (Store.active_rows db rows)
unfolding Store.active_rows
active-NoneBreached now db [] h = tt
active-NoneBreached now db (x ∷ rows) h =
    let rest = active-NoneBreached now db rows h.1 in
    elim (Bool-cases (Store.is_active x)) [
      | inl active ↦
          rw active
            (joined-NoneBreached now x (Store.policy_of db x) (Store.active_rows db rows) h.0 rest)
      | inr other ↦ rw other rest
    ]

write-IsKept :
    (now : Time) (s : State) (w : World)
    → IsQuiet w
    → Store.is_breached now s ≡ false
    → NoneBreached now w.db.sla_states
    → IsKept now w (db_store.upsert_state s w).1
unfolding db_store Store.upsert_state
write-IsKept now s w q h k =
    let allowed =
      fits_int4 s.accumulated_pause_secs && any (has_meta_id s.ticket_meta_id) w.db.ticket_meta in
    rw (connected_ran _ w.db q.up) (elim (Bool-cases allowed) [
      | inl passed ↦ rw passed (record {
        alerts = refl;
        quiet = record { up = q.up; arrives = q.arrives; answers = q.answers };
        rows = NoneBreached-upsert now s w.db.sla_states h k;
      })
      | inr refused ↦ rw refused (record {
        alerts = refl;
        quiet = record { up = q.up; arrives = q.arrives; answers = q.answers };
        rows = k;
      })
    ])

breached_warned :
    (now : Time) (s : State)
    → Store.is_breached now s ≡ false
    → Store.is_breached now (Poller.warned now s) ≡ false
unfolding Store.is_breached
breached_warned now s h = h

warn-IsKept :
    (cancelled : World → Bool) (now : Time) (a : ActiveSlaState) (w : World)
    → IsQuiet w
    → Store.is_breached now a.state ≡ false
    → NoneBreached now w.db.sla_states
    → IsKept now w (Poller.warn db_store create_alert cancelled now a w)
unfolding Poller.warn
warn-IsKept cancelled now a w q h k =
    elim (Bool-cases (Poller.is_on_track a.state.label && Poller.should_warn now a)) [
      | inl warns ↦
          rw warns
            (write-IsKept now (Poller.warned now a.state) w q (breached_warned now a.state h) k)
      | inr stays ↦ rw stays (record { alerts = refl; quiet = q; rows = k })
    ]

warning_loop-IsKept :
    (cancelled : World → Bool) (now : Time) (active : List ActiveSlaState) (w : World)
    → IsQuiet w
    → All (λ a. Store.is_breached now a.state ≡ false) active
    → NoneBreached now w.db.sla_states
    → IsKept now w (Poller.warning_loop db_store create_alert cancelled now active w)
unfolding Poller.warning_loop
warning_loop-IsKept cancelled now [] w q h k = record { alerts = refl; quiet = q; rows = k }
warning_loop-IsKept cancelled now (a ∷ active) w q h k =
    let first = warn-IsKept cancelled now a w q h.0 k in
    let w' = Poller.warn db_store create_alert cancelled now a w in
    elim (Bool-cases (cancelled w)) [
      | inl stops ↦ rw stops (record { alerts = refl; quiet = q; rows = k })
      | inr goes ↦ rw goes (
          IsKept-trans first
            (warning_loop-IsKept cancelled now active w' first.quiet h.1 first.rows))
    ]

pub check_warnings-IsKept :
    (cancelled : World → Bool) (now : Time) (w : World)
    → IsQuiet w
    → NoneBreached now w.db.sla_states
    → IsKept now w (Poller.check_warnings db_store create_alert cancelled now w)
unfolding Poller.check_warnings db_store
check_warnings-IsKept cancelled now w q k =
    let w' = record w { db = later w.db } in
    let q' : IsQuiet w' = record { up = q.up; arrives = q.arrives; answers = q.answers } in
    let rest =
      warning_loop-IsKept cancelled now (Store.active_rows (later w.db) w.db.sla_states) w' q'
        (active-NoneBreached now (later w.db) w.db.sla_states k) k in
    rw (list_active_states_ran w.db q.up) (
      unfold Poller.warn_listed in
      record { alerts = rest.alerts; quiet = rest.quiet; rows = rest.rows })
