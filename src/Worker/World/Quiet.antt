-- ===== src/Worker/World/Quiet.antt =====
-- The queries of the poller while no call fails.
use ticketowl.Worker.Store
use ticketowl.Worker.World.{World, Time}
use ticketowl.Base.{ℕ, ◌≡◌, Action, false, true, suc, ok, filter, find?, any, some, ◌∙◌}
use ticketowl.Db.{query, Db, fits_int4}
use ticketowl.Sla.Types.{Uuid, State, Policy}
use ticketowl.Ticket.Types.{Meta}
use ticketowl.Sla.Store.{has_meta_id, has_policy_id, of_ticket, keep_id}
use ticketowl.Base.Table.{upsert}
use ticketowl.Db.Laws.{query_ran}

-- Every query runs, every alert arrives and is answered.
pub record IsQuiet (w : World) : Type 0 where
  pub up : (n : ℕ) → w.db.down n ≡ false
  pub arrives : (n : ℕ) → w.delivered n ≡ true
  pub answers : (n : ℕ) → w.answered n ≡ true

-- The database once three more queries have been made.
abbrev pub later : Db → Db
later db = record db { queries = suc (suc (suc db.queries)) }

pub connected_ran :
    {A : Type 0} (m : Action Db A) (db : Db)
    → ((n : ℕ) → db.down n ≡ false)
    → Store.on_connection (query m) db ≡ m (later db)
unfolding Store.on_connection
connected_ran m db up =
    let after_one = record db { queries = suc db.queries } in
    let after_two = record db { queries = suc (suc db.queries) } in
    query_ran (query (query m)) db (up db.queries)
    ∙ query_ran (query m) after_one (up (suc db.queries))
    ∙ query_ran m after_two (up (suc (suc db.queries)))

module _ (db : Db) (up : (n : ℕ) → db.down n ≡ false) where
  pub list_breached_tickets_ran :
      (now : Time)
      → Store.list_breached_tickets now db
        ≡ (ok (filter (Store.is_breached now) db.sla_states), later db)
  unfolding Store.list_breached_tickets
  list_breached_tickets_ran now =
      connected_ran (λ d. (ok (filter (Store.is_breached now) d.sla_states), d)) db up

  pub list_active_states_ran :
      Store.list_active_states db ≡ (ok (Store.active_rows (later db) db.sla_states), later db)
  unfolding Store.list_active_states
  list_active_states_ran = connected_ran (λ d. (ok (Store.active_rows d d.sla_states), d)) db up

  pub get_ticket_meta_by_id_ran :
      (id : Uuid) {m : Meta}
      → find? (has_meta_id id) db.ticket_meta ≡ some m
      → Store.get_ticket_meta_by_id id db ≡ (ok (Store.meta_info m), later db)
  unfolding Store.get_ticket_meta_by_id
  get_ticket_meta_by_id_ran id h = rw (connected_ran _ db up) (rw h)

  pub get_policy_by_id_ran :
      (id : Uuid) {p : Policy}
      → find? (has_policy_id id) db.sla_policies ≡ some p
      → Store.get_policy_by_id id db ≡ (ok p, later db)
  unfolding Store.get_policy_by_id
  get_policy_by_id_ran id h = rw (connected_ran _ db up) (rw h)

  pub upsert_state_ran :
      (s : State)
      → fits_int4 s.accumulated_pause_secs ≡ true
      → any (has_meta_id s.ticket_meta_id) db.ticket_meta ≡ true
      → Store.upsert_state s db ≡ (
        ok tt,
        record (later db) {
          sla_states = upsert (of_ticket s.ticket_meta_id) (keep_id s) s db.sla_states;
        },
      )
  unfolding Store.upsert_state
  upsert_state_ran s fits known = rw (connected_ran _ db up) (rw (fits, known))
