-- ===== src/Ticket/Store.antt =====
-- internal/ticket/store.go: the metadata of the tickets. `scanMeta` and `scanMetaRows` copy the
-- columns of a row, which is the row itself here.
pub mod Laws
mod Tests
use ticketowl.Base.Table.{upsert as insert_or_update, upserted}
use ticketowl.Sla.Store.{has_zammad_id, has_meta_id, has_policy_id}
use ticketowl.Base.{
  String, ℕ, Option, List, Action, some, none, Bool, str_eq, ◌&&◌, true, find?, ltb, any, not, ◌^◌,
  suc, ◌==◌, ok, if◌then◌else◌, filter, err, failed,
}
use ticketowl.Sla.Types.{Uuid, Time, Policy}
use ticketowl.Db.{Db, query, row}
use ticketowl.Ticket.Types.{Meta}

abbrev pub has_number : String → Meta → Bool
has_number number m = str_eq m.zammad_number number

unfoldable pub get_by_zammad_id : ℕ → Action Db Meta
get_by_zammad_id zammad_id = query λ db. row (find? (has_zammad_id zammad_id) db.ticket_meta) db

unfoldable pub get_by_id : Uuid → Action Db Meta
get_by_id id = query λ db. row (find? (has_meta_id id) db.ticket_meta) db

-- `COALESCE(EXCLUDED.sla_policy_id, ticket_meta.sla_policy_id)`
abbrev pub keep_policy : Option Uuid → Option Uuid → Option Uuid
keep_policy none old = old
keep_policy (some p) old = some p

abbrev pub merge_meta : String → Option Uuid → Time → Meta → Meta
merge_meta number policy now m = record m {
  zammad_number = number;
  sla_policy_id = keep_policy policy m.sla_policy_id;
  updated_at = now;
}

-- another ticket has the number: UNIQUE (zammad_number)
abbrev pub number_taken : ℕ → String → Meta → Bool
number_taken zammad_id number m = has_number number m && not (has_zammad_id zammad_id m)

-- the policy is NULL or a row of sla_policies
abbrev pub policy_known : Option Uuid → List Policy → Bool
policy_known none policies = true
policy_known (some p) policies = any (has_policy_id p) policies

abbrev pub new_meta : ℕ → String → Option Uuid → Db → Meta
new_meta zammad_id number policy db = record {
  id = db.next_id;
  zammad_id = zammad_id;
  zammad_number = number;
  sla_policy_id = policy;
  created_at = db.clock;
  updated_at = db.clock;
}

-- The row that the statement leaves and returns.
abbrev pub upserted_meta : ℕ → String → Option Uuid → Db → Meta
upserted_meta zammad_id number policy db =
    upserted (merge_meta number policy db.clock) (new_meta zammad_id number policy db)
      (find? (has_zammad_id zammad_id) db.ticket_meta)

unfoldable pub accepted : ℕ → String → Option Uuid → Db → Bool
accepted zammad_id number policy db =
    ltb zammad_id (2 ^ 31)
    && not (any (number_taken zammad_id number) db.ticket_meta)
    && policy_known policy db.sla_policies

unfoldable pub upsert : ℕ → String → Option Uuid → Action Db Meta
upsert zammad_id number policy = query λ db.
    let metas =
      insert_or_update (has_zammad_id zammad_id) (merge_meta number policy db.clock)
        (new_meta zammad_id number policy db) db.ticket_meta in
    let db' = record db { next_id = suc db.next_id; ticket_meta = metas } in
    if accepted zammad_id number policy db
    then (ok (upserted_meta zammad_id number policy db), db')
    else (err failed, db)

abbrev listed : List ℕ → Meta → Bool
listed ids m = any (λ n. m.zammad_id == n) ids

unfoldable pub list_by_zammad_ids : List ℕ → Action Db (List Meta)
list_by_zammad_ids zammad_ids = query λ db. (ok (filter (listed zammad_ids) db.ticket_meta), db)
