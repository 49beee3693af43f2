-- ===== src/Worker/Handler/Update/Laws.antt =====
-- internal/worker/resolve.go: what `handleTicketUpdate` leaves in the database.
use ticketowl.Worker.Clock
use ticketowl.Worker.Types.{ZammadEvent}
use ticketowl.Worker.Handler.Update.{handle_ticket_update, write_step, update_clock, step_clock}
use ticketowl.Sla.Store as SlaStore
use ticketowl.Ticket.Store as TicketStore
use ticketowl.Base.{
  find?, ◌≡◌, some, true, any, ℕ, false, inl, ok, inr, refl, Action, Option, >>=-ok, ◌>>=◌, ◌∙◌, ap,
  sym,
}
use ticketowl.Worker.Handler.Context.{acquire_conn, optional, on_db}
use ticketowl.Db.{Db, fits_int4}
use ticketowl.Sla.Types.{Time, State}
use ticketowl.Ticket.Types.{Meta}
use ticketowl.Base.Table.{upsert, find?-upsert_self, find?_sound, upserted}
use ticketowl.Worker.Handler.Queries.{
  eq_self, eq_sound, optional-found, upsert_state_ok, any_of_find, get_by_zammad_id_ok,
  get_state_ok, acquire_ok, ticked,
}

pub handle_ticket_update-found :
    {R : Type 0} (now : Time) (evt : ZammadEvent) (db : Db) (r : R) (m : Meta) (s : State)
    → ((n : ℕ) → db.down n ≡ false)
    → find? (SlaStore.has_zammad_id evt.ticket_id) db.ticket_meta ≡ some m
    → find? (SlaStore.of_ticket m.id) db.sla_states ≡ some s
    → handle_ticket_update now evt (db, r)
      ≡ write_step
          (Clock.clock_step (Clock.is_pause_state evt.state) now s)
          (ticked (ticked (ticked db)), r)
unfolding handle_ticket_update
handle_ticket_update-found {R} now evt db r m s up meta state =
    let lookup : Action (Db × R) (Option Meta) =
      optional (on_db (TicketStore.get_by_zammad_id evt.ticket_id)) in
    let load : Action (Db × R) (Option State) =
      optional (on_db (SlaStore.get_state_by_ticket_meta_id m.id)) in
    let looked_up =
      optional-found (TicketStore.get_by_zammad_id evt.ticket_id) (ticked db) r
        (get_by_zammad_id_ok evt.ticket_id (ticked db) m up meta) in
    let loaded =
      optional-found (SlaStore.get_state_by_ticket_meta_id m.id) (ticked (ticked db)) r
        (get_state_ok m.id (ticked (ticked db)) s up state) in
    >>=-ok acquire_conn (λ _. lookup >>= update_clock now evt) (db, r) (acquire_ok db r up)
    ∙ >>=-ok lookup (update_clock now evt) (ticked db, r) looked_up
    ∙ >>=-ok load (step_clock now evt) (ticked (ticked db), r) loaded

keep_id_same : (next s : State) → s.id ≡ next.id → SlaStore.keep_id next s ≡ next
keep_id_same next s h = ap (λ i. record next { id = i }) h

-- What a write of `next` over the row `s` of its ticket leaves.
write_over :
    {R : Type 0} (db : Db) (r : R) (m : Meta) (s next : State)
    → ((k : ℕ) → db.down k ≡ false)
    → any (SlaStore.has_meta_id m.id) db.ticket_meta ≡ true
    → find? (SlaStore.of_ticket m.id) db.sla_states ≡ some s
    → fits_int4 next.accumulated_pause_secs ≡ true
    → next.ticket_meta_id ≡ m.id
    → SlaStore.keep_id next s ≡ next
    → let (result, (db', r')) = write_step (some next) (db, r) in
      (result ≡ ok tt)
      × (find? (SlaStore.of_ticket m.id) db'.sla_states ≡ some next)
      × (db'.ticket_meta ≡ db.ticket_meta)
write_over db r m s next up meta state fits ticket same =
    let key = next.ticket_meta_id in
    let known = ap (λ i. any (SlaStore.has_meta_id i) db.ticket_meta) ticket ∙ meta in
    let old = ap (λ i. find? (SlaStore.of_ticket i) db.sla_states) ticket ∙ state in
    let found =
      find?-upsert_self (SlaStore.of_ticket key) (SlaStore.keep_id next) next (eq_self key)
        (λ x h. eq_self key) db.sla_states in
    let merged = ap (upserted (SlaStore.keep_id next) next) old ∙ same in
    let rows = upsert (SlaStore.of_ticket key) (SlaStore.keep_id next) next db.sla_states in
    rw (upsert_state_ok next db up fits known) (
      refl,
      ap (λ i. find? (SlaStore.of_ticket i) rows) (sym ticket) ∙ found ∙ ap some merged,
      refl,
    )

-- With every query answered, an update of a ticket that has an SLA state leaves the state that the
-- clock's step makes, provided that its accumulated pause fits the column.
pub update_writes_step :
    {R : Type 0} (now : Time) (evt : ZammadEvent) (db : Db) (r : R) (m : Meta) (s : State)
    → ((n : ℕ) → db.down n ≡ false)
    → find? (SlaStore.has_zammad_id evt.ticket_id) db.ticket_meta ≡ some m
    → find? (SlaStore.of_ticket m.id) db.sla_states ≡ some s
    → let next = Clock.step_state (Clock.is_pause_state evt.state) now s in
      fits_int4 next.accumulated_pause_secs ≡ true
      → let (result, (db', r')) = handle_ticket_update now evt (db, r) in
        (result ≡ ok tt)
        × (find? (SlaStore.of_ticket m.id) db'.sla_states ≡ some next)
        × (db'.ticket_meta ≡ db.ticket_meta)
update_writes_step now evt db r m s up meta state fits =
    let b = Clock.is_pause_state evt.state in
    let ticket =
      eq_sound s.ticket_meta_id m.id (find?_sound (SlaStore.of_ticket m.id) db.sla_states state) in
    let known =
      any_of_find (SlaStore.has_zammad_id evt.ticket_id) (SlaStore.has_meta_id m.id) db.ticket_meta
        meta (eq_self m.id) in
    let db' = ticked (ticked (ticked db)) in
    rw (handle_ticket_update-found now evt db r m s up meta state)
      (elim (Clock.Laws.step_cases b now s) [
        | inl (p, e) ↦ rw e (refl, state, refl)
        | inr (inl (p, q, e)) ↦
            rw e
              (write_over db' r m s (Clock.pause now s) up known state (rw e at fits) ticket refl)
        | inr (inr (p, q, e)) ↦ rw e (
            write_over db' r m s (Clock.resume now s) up known state (rw e at fits)
              (Clock.Laws.resume_ticket now s ∙ ticket)
              (keep_id_same (Clock.resume now s) s (sym (Clock.Laws.resume_id now s))))
      ])
