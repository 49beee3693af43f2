-- ===== src/Sla/Store.antt =====
-- internal/sla/store.go: the policies and the persisted states.
use ticketowl.Base.Table.{upsert, update, delete}
use ticketowl.Sla.Types.{Uuid, Policy, UpdatePolicyRequest, State, Time, CreatePolicyRequest}
use ticketowl.Base.{
  String, ℕ, Bool, Action, ◌==◌, str_eq, ◌&&◌, get_or, Result, bool_eq, suc, not, if◌then◌else◌,
  find?, none, true, ◌++◌, any, err, false, ◌∷◌, ok, no_rows, some, [], failed, List,
}
use ticketowl.Db.{fits_int4, fits_numeric, Db, query, row}
use ticketowl.Ticket.Types.{Meta}

-- `by_priority` is the ORDER BY, which depends on the collation
unfoldable pub list_policies : (List Policy → List Policy) → Action Db (List Policy)
list_policies by_priority = query λ db. (ok (by_priority db.sla_policies), db)

abbrev pub has_policy_id : Uuid → Policy → Bool
has_policy_id id p = p.id == id

-- UNIQUE (priority, is_default)
abbrev pub same_slot : String → Bool → Policy → Bool
same_slot priority is_default p = str_eq p.priority priority && bool_eq p.is_default is_default

unfoldable pub get_policy : Uuid → Action Db Policy
get_policy id = query λ db. row (find? (has_policy_id id) db.sla_policies) db

unfoldable pub get_default_policy_by_priority : String → Action Db Policy
get_default_policy_by_priority priority =
    query λ db. row (find? (same_slot priority true) db.sla_policies) db

abbrev pub fits : Policy → Bool
fits p =
    fits_int4 p.response_minutes
    && fits_int4 p.resolution_minutes
    && fits_numeric p.warning_threshold

abbrev pub new_policy : CreatePolicyRequest → Db → Policy
new_policy req db = record {
  id = db.next_id;
  name = req.name;
  priority = req.priority;
  response_minutes = req.response_minutes;
  resolution_minutes = req.resolution_minutes;
  warning_threshold = req.warning_threshold;
  is_default = req.is_default;
  created_at = db.clock;
  updated_at = db.clock;
}

unfoldable pub create_policy : CreatePolicyRequest → Action Db Policy
unfolding fits_int4 fits_numeric
create_policy req = query λ db.
    let p = new_policy req db in
    let db' = record db { next_id = suc db.next_id; sla_policies = db.sla_policies ++ p ∷ [] } in
    if fits p && not (any (same_slot p.priority p.is_default) db.sla_policies)
    then (ok p, db')
    else (err failed, db)

abbrev pub coalesce_policy : UpdatePolicyRequest → Time → Policy → Policy
coalesce_policy req now p = record p {
  name = get_or req.name p.name;
  response_minutes = get_or req.response_minutes p.response_minutes;
  resolution_minutes = get_or req.resolution_minutes p.resolution_minutes;
  warning_threshold = get_or req.warning_threshold p.warning_threshold;
  is_default = get_or req.is_default p.is_default;
  updated_at = now;
}

-- another row holds the slot
abbrev pub slot_taken : Policy → Policy → Bool
slot_taken p q = same_slot p.priority p.is_default q && not (q.id == p.id)

abbrev pub write_policy : Policy → Db → Result Policy × Db
write_policy p db =
    if fits p && not (any (slot_taken p) db.sla_policies)
    then (ok p, record db { sla_policies = update (has_policy_id p.id) (λ _. p) db.sla_policies })
    else (err failed, db)

unfoldable pub update_policy : Uuid → UpdatePolicyRequest → Action Db Policy
unfolding fits_int4 fits_numeric
update_policy id req = query λ db. elim (find? (has_policy_id id) db.sla_policies) [
  | none ↦ (err no_rows, db)
  | some p ↦ write_policy (coalesce_policy req db.clock p) db
]

abbrev clear_policy : Uuid → Meta → Meta
clear_policy id m = record m { sla_policy_id = none }

abbrev has_policy : Uuid → Meta → Bool
has_policy id m = elim m.sla_policy_id [ none ↦ false | some p ↦ p == id ]

-- ticket_meta.sla_policy_id is ON DELETE SET NULL
unfoldable pub delete_policy : Uuid → Action Db (Unit {0})
delete_policy id = query λ db.
    let db' = record db {
      sla_policies = delete (has_policy_id id) db.sla_policies;
      ticket_meta = update (has_policy id) (clear_policy id) db.ticket_meta;
    } in
    if any (has_policy_id id) db.sla_policies then (ok tt, db') else (err no_rows, db)

abbrev pub of_ticket : Uuid → State → Bool
of_ticket meta_id s = s.ticket_meta_id == meta_id

abbrev pub has_zammad_id : ℕ → Meta → Bool
has_zammad_id n m = m.zammad_id == n

abbrev pub has_meta_id : Uuid → Meta → Bool
has_meta_id id m = m.id == id

-- the JOIN of sla_states with ticket_meta, on unique columns
unfoldable pub get_state_by_zammad_id : ℕ → Action Db State
get_state_by_zammad_id zammad_id = query λ db.
    elim (find? (has_zammad_id zammad_id) db.ticket_meta) [
      | none ↦ (err no_rows, db)
      | some m ↦ row (find? (of_ticket m.id) db.sla_states) db
    ]

unfoldable pub get_state_by_ticket_meta_id : Uuid → Action Db State
get_state_by_ticket_meta_id meta_id = query λ db. row (find? (of_ticket meta_id) db.sla_states) db

-- ON CONFLICT (ticket_meta_id) every column is taken from the new row but the id
abbrev pub keep_id : State → State → State
keep_id state old = record state { id = old.id }

-- the foreign key wants the ticket's metadata; every caller gives a fresh id, or the one of the row
-- that it has read, so the primary key is not tested
unfoldable pub upsert_state : State → Action Db (Unit {0})
unfolding fits_int4
upsert_state state = query λ db.
    let states = upsert (of_ticket state.ticket_meta_id) (keep_id state) state db.sla_states in
    if fits_int4 state.accumulated_pause_secs
      && any (has_meta_id state.ticket_meta_id) db.ticket_meta
    then (ok tt, record db { sla_states = states })
    else (err failed, db)
