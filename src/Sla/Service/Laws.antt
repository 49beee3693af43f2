-- ===== src/Sla/Service/Laws.antt =====
-- internal/sla/service.go: what ApplyPolicy leaves in the tenant's database.
use ticketowl.Base.{
  ℕ, Option, some, none, ok, refl, suc, false, true, ◌≡◌, find?, Bool-cases, inl, inr, ◌==◌, arith,
  any, ◌&&◌, List, ◌≢◌, ap, ◌∙◌,
}
use ticketowl.Base.Table.{upsert, upserted, find?-upsert_self, find?-upsert_other}
use ticketowl.Db.{Db, query, fits_int4}
use ticketowl.Sla.Types.{Uuid, State, Policy, Time}
use ticketowl.Sla.Store.{upsert_state, get_state_by_ticket_meta_id, of_ticket, keep_id, has_meta_id}
use ticketowl.Sla.Service.{apply_policy, sla_store, get_ticket_sla, starting_input, state_from}
use ticketowl.Sla.Compute.{compute_state, minutes_duration}
use ticketowl.Base.Int.{◌+ℤ◌, pos}

upsert_state_wrote :
    (state : State) (db : Db)
    → (upsert_state state db).0 ≡ ok tt
    → (upsert_state state db).1 ≡ record db {
      queries = suc db.queries;
      sla_states = upsert (of_ticket state.ticket_meta_id) (keep_id state) state db.sla_states;
    }
unfolding upsert_state query
upsert_state_wrote state db h = elim (Bool-cases (db.down db.queries)) [
  | inl k ↦ ground (arith, rw k at h)
  | inr k ↦
      elim (Bool-cases (
        fits_int4 state.accumulated_pause_secs
        && any (has_meta_id state.ticket_meta_id) db.ticket_meta)) [
          | inl m ↦ rw (k, m) refl
          | inr m ↦ ground (arith, rw (k, m) at h)
        ]
]

get_state_found :
    (meta_id : Uuid) (db : Db) {s : State}
    → db.down db.queries ≡ false
    → find? (of_ticket meta_id) db.sla_states ≡ some s
    → (get_state_by_ticket_meta_id meta_id db).0 ≡ ok s
unfolding get_state_by_ticket_meta_id query
get_state_found meta_id db up found = rw (up, found) refl

==-refl : (n : ℕ) → (n == n) ≡ true
==-refl n = ground arith

==-ne : (n m : ℕ) → m ≢ n → (n == m) ≡ false
==-ne n m h = ground (arith, h)

==-other : (k n m : ℕ) → (k == n) ≡ true → m ≢ n → (k == m) ≡ false
==-other k n m e h = ground (arith, h)

upserted_start :
    (st : State) (o : Option State)
    → upserted (keep_id st) st o ≡ record st { id = (upserted (keep_id st) st o).id }
upserted_start st none = refl
upserted_start st (some old) = refl

-- If ApplyPolicy succeeds and the next query is answered, the ticket's SLA state that is read back
-- counts from the creation time: both deadlines are the creation time plus the policy's minutes, the
-- label is the computed one for that moment, and an earlier response, alert or pause is gone; the
-- states of all other tickets are the same as before.
pub apply_policy_reads :
    (by_priority : List Policy → List Policy) (now : Time) (new_id meta_id : Uuid) (policy : Policy)
    (created_at : Time) (db : Db)
    → (apply_policy (sla_store by_priority) now new_id meta_id policy created_at db).0 ≡ ok tt
    → db.down (suc db.queries) ≡ false
    → let db' = (apply_policy (sla_store by_priority) now new_id meta_id policy created_at db).1 in
      (id : Uuid) × ((get_ticket_sla (sla_store by_priority) meta_id db').0
        ≡ ok (record {
          id = id;
          ticket_meta_id = meta_id;
          response_due_at = some (created_at +ℤ minutes_duration policy.response_minutes);
          resolution_due_at = some (created_at +ℤ minutes_duration policy.resolution_minutes);
          response_met_at = none;
          first_breach_alerted_at = none;
          label = (compute_state (starting_input policy created_at now)).label;
          paused = false;
          paused_at = none;
          accumulated_pause_secs = pos 0;
          updated_at = now;
        }))
      × ((other : Uuid)
          → other ≢ meta_id
          → find? (of_ticket other) db'.sla_states ≡ find? (of_ticket other) db.sla_states)
unfolding apply_policy compute_state
apply_policy_reads by_priority now new_id meta_id policy created_at db h up =
    let st = state_from new_id meta_id now (compute_state (starting_input policy created_at now)) in
    let old = find? (of_ticket meta_id) db.sla_states in
    let wrote = upsert_state_wrote st db h in
    let same = of_ticket meta_id in
    let found =
      find?-upsert_self same (keep_id st) st (==-refl meta_id) (λ x _. ==-refl meta_id)
        db.sla_states in
    (
      (upserted (keep_id st) st old).id,
      ap (λ d. (get_state_by_ticket_meta_id meta_id d).0) wrote
          ∙ get_state_found meta_id
              (record db {
                queries = suc db.queries;
                sla_states = upsert same (keep_id st) st db.sla_states;
              })
              up (found ∙ ap some (upserted_start st old)),
      λ other ne.
          ap (λ d. find? (of_ticket other) d.sla_states) wrote
          ∙ find?-upsert_other same (keep_id st) st (of_ticket other) (==-ne meta_id other ne)
              (λ x e. ==-other x.ticket_meta_id meta_id other e ne) (λ x e. ==-ne meta_id other ne)
              db.sla_states,
    )
