-- ===== src/Sla/Service/Tests.antt =====
-- The examples of internal/sla/service.go.
use ticketowl.Base.{some, none, ok, refl, ◌≡◌, ◌≢◌, ◌∷◌, [], false, true, find?}
use ticketowl.Base.Int.{pos, ◌+ℤ◌}
use ticketowl.Db.{Db, query, fits_int4}
use ticketowl.Db.Sample.{empty_db, sample_meta, sample_state}
use ticketowl.Sla.Types.{Policy, Uuid}
use ticketowl.Sla.Compute.{compute_state, minutes_duration}
use ticketowl.Sla.Service.{apply_policy, sla_store, starting_input, get_ticket_sla}
use ticketowl.Sla.Service.Laws.{apply_policy_reads}
use ticketowl.Sla.Store.{upsert_state, of_ticket}

abbrev pub urgent : Policy
urgent = record {
  id = 2;
  name = "urgent";
  priority = "high";
  response_minutes = pos 30;
  resolution_minutes = pos 240;
  warning_threshold = pos 200;
  is_default = true;
  created_at = pos 0;
  updated_at = pos 0;
}

-- a ticket with an old state
abbrev tracked : Db
tracked = record empty_db {
  ticket_meta = sample_meta ∷ [];
  sla_states = record sample_state { first_breach_alerted_at = some (pos 5); paused = true } ∷ [];
}

apply_policy_reads_example :
    let db' = (apply_policy (sla_store (λ ps. ps)) (pos 60) 9 7 urgent (pos 50) tracked).1 in
    (id : Uuid) × ((get_ticket_sla (sla_store (λ ps. ps)) 7 db').0
      ≡ ok (record {
        id = id;
        ticket_meta_id = 7;
        response_due_at = some (pos 50 +ℤ minutes_duration (pos 30));
        resolution_due_at = some (pos 50 +ℤ minutes_duration (pos 240));
        response_met_at = none;
        first_breach_alerted_at = none;
        label = (compute_state (starting_input urgent (pos 50) (pos 60))).label;
        paused = false;
        paused_at = none;
        accumulated_pause_secs = pos 0;
        updated_at = pos 60;
      }))
    × ((other : Uuid)
        → other ≢ 7
        → find? (of_ticket other) db'.sla_states ≡ find? (of_ticket other) tracked.sla_states)
unfolding apply_policy upsert_state query fits_int4
apply_policy_reads_example =
    apply_policy_reads (λ ps. ps) (pos 60) 9 7 urgent (pos 50) tracked refl refl
