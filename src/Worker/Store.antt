-- ===== src/Worker/Store.antt =====
-- internal/worker/store.go: the queries of the poller. Each takes a connection, sets the search
-- path and runs one statement; each of the three may fail.
use ticketowl.Base.{
  none, some, [], ◌∷◌, Bool, Action, not, ◌&&◌, Option, List, is_some, ok, find?, if◌then◌else◌,
  ◌||◌, filter, err, no_rows,
}
use ticketowl.Sla
use ticketowl.Sla.Types.{State, Policy, Time, Uuid}
use ticketowl.Worker.Types.{ActiveSlaState, TicketMetaInfo}
use ticketowl.Worker.Poller.{is_on_track, due_before}
use ticketowl.Db.{query, Db, row}
use ticketowl.Ticket.Types.{Meta}

-- `pool.Acquire`, `SET search_path`, and the statement
unfoldable pub on_connection : {A : Type 0} → Action Db A → Action Db A
on_connection m = query (query m)

-- the WHERE clause of `ListBreachedTickets`
unfoldable pub is_breached : Time → State → Bool
is_breached now s =
    not (is_some s.first_breach_alerted_at)
    && not s.paused
    && (due_before now s.response_due_at && not (is_some s.response_met_at)
        || due_before now s.resolution_due_at)

unfoldable pub list_breached_tickets : Time → Action Db (List State)
unfolding on_connection query
list_breached_tickets now =
    on_connection (query λ db. (ok (filter (is_breached now) db.sla_states), db))

-- the WHERE clause of `ListActiveStates`
unfoldable pub is_active : State → Bool
is_active s = is_on_track s.label && not s.paused && not (is_some s.first_breach_alerted_at)

-- the policy of the ticket, if both joins have a row
unfoldable pub policy_of : Db → State → Option Policy
policy_of db s = elim (find? (Sla.Store.has_meta_id s.ticket_meta_id) db.ticket_meta) [
  | none ↦ none
  | some m ↦ elim m.sla_policy_id [
    | none ↦ none
    | some id ↦ find? (Sla.Store.has_policy_id id) db.sla_policies
  ]
]

abbrev pub with_policy : State → Policy → ActiveSlaState
with_policy s p = record {
  state = s;
  response_minutes = p.response_minutes;
  resolution_minutes = p.resolution_minutes;
  warning_threshold = p.warning_threshold;
}

-- an inner join drops the row that has no policy
abbrev pub joined : State → Option Policy → List ActiveSlaState → List ActiveSlaState
joined s none others = others
joined s (some p) others = with_policy s p ∷ others

unfoldable pub active_rows : Db → List State → List ActiveSlaState
unfolding is_active
active_rows db [] = []
active_rows db (s ∷ rest) =
    let others = active_rows db rest in
    if is_active s then joined s (policy_of db s) others else others

unfoldable pub list_active_states : Action Db (List ActiveSlaState)
unfolding on_connection query active_rows
list_active_states = on_connection (query λ db. (ok (active_rows db db.sla_states), db))

unfoldable pub get_policy_by_id : Uuid → Action Db Policy
unfolding on_connection query
get_policy_by_id id =
    on_connection (query λ db. row (find? (Sla.Store.has_policy_id id) db.sla_policies) db)

unfoldable pub upsert_state : State → Action Db (Unit {0})
unfolding on_connection Sla.Store.upsert_state
upsert_state state = on_connection (Sla.Store.upsert_state state)

abbrev pub meta_info : Meta → TicketMetaInfo
meta_info m = record {
  id = m.id;
  zammad_id = m.zammad_id;
  zammad_number = m.zammad_number;
  sla_policy_id = m.sla_policy_id;
  created_at = m.created_at;
}

unfoldable pub get_ticket_meta_by_id : Uuid → Action Db TicketMetaInfo
unfolding on_connection query
get_ticket_meta_by_id id = on_connection (
    query λ db. elim (find? (Sla.Store.has_meta_id id) db.ticket_meta) [
      | none ↦ (err no_rows, db)
      | some m ↦ (ok (meta_info m), db)
    ])
