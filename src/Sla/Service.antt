-- ===== src/Sla/Service.antt =====
-- internal/sla/service.go: the service over its store. Wrapping by `%w` keeps an error, so the calls
-- that only wrap are those of the store.
use ticketowl.Base.{ℕ, String, List, Option, none, some, Action, false}
use ticketowl.Base.Int.{pos}
use ticketowl.Sla.Types.{
  Uuid, Time, Policy, State, CreatePolicyRequest, UpdatePolicyRequest, ComputeInput, ComputeResult,
}
use ticketowl.Sla.Compute.{compute_state}
use ticketowl.Sla.Store
use ticketowl.Db.{Db}
pub mod Laws
mod Tests

pub record SlaStore (S : Type 0) : Type 0 where
  pub list_policies : Action S (List Policy)
  pub get_policy : Uuid → Action S Policy
  pub get_default_policy_by_priority : String → Action S Policy
  pub create_policy : CreatePolicyRequest → Action S Policy
  pub update_policy : Uuid → UpdatePolicyRequest → Action S Policy
  pub delete_policy : Uuid → Action S (Unit {0})
  pub get_state_by_ticket_meta_id : Uuid → Action S State
  pub get_state_by_zammad_id : ℕ → Action S State
  pub upsert_state : State → Action S (Unit {0})

-- `Store` as an `SLAStore`
abbrev pub sla_store : (List Policy → List Policy) → SlaStore Db
sla_store by_priority = record {
  list_policies = Store.list_policies by_priority;
  get_policy = Store.get_policy;
  get_default_policy_by_priority = Store.get_default_policy_by_priority;
  create_policy = Store.create_policy;
  update_policy = Store.update_policy;
  delete_policy = Store.delete_policy;
  get_state_by_ticket_meta_id = Store.get_state_by_ticket_meta_id;
  get_state_by_zammad_id = Store.get_state_by_zammad_id;
  upsert_state = Store.upsert_state;
}

-- the input at the start of a ticket's clock
abbrev pub starting_input : Policy → Time → Time → ComputeInput
starting_input policy created_at now = record {
  response_minutes = policy.response_minutes;
  resolution_minutes = policy.resolution_minutes;
  warning_threshold = policy.warning_threshold;
  ticket_created_at = created_at;
  response_met_at = none;
  accumulated_pause = pos 0;
  paused = false;
  now = now;
}

abbrev pub state_from : Uuid → Uuid → Time → ComputeResult → State
state_from new_id meta_id now result = record {
  id = new_id;
  ticket_meta_id = meta_id;
  response_due_at = some result.response_due_at;
  resolution_due_at = some result.resolution_due_at;
  response_met_at = none;
  first_breach_alerted_at = none;
  label = result.label;
  paused = false;
  paused_at = none;
  accumulated_pause_secs = pos 0;
  updated_at = now;
}

module _ {S : Type 0} (store : SlaStore S) where
  abbrev pub list_policies : Action S (List Policy)
  list_policies = store.list_policies

  abbrev pub get_policy : Uuid → Action S Policy
  get_policy id = store.get_policy id

  abbrev pub create_policy : CreatePolicyRequest → Action S Policy
  create_policy req = store.create_policy req

  abbrev pub update_policy : Uuid → UpdatePolicyRequest → Action S Policy
  update_policy id req = store.update_policy id req

  abbrev pub delete_policy : Uuid → Action S (Unit {0})
  delete_policy id = store.delete_policy id

  abbrev pub get_ticket_sla : Uuid → Action S State
  get_ticket_sla meta_id = store.get_state_by_ticket_meta_id meta_id

  abbrev pub get_ticket_sla_by_zammad_id : ℕ → Action S State
  get_ticket_sla_by_zammad_id zammad_id = store.get_state_by_zammad_id zammad_id

  -- `now` is time.Now() and `new_id` uuid.New()
  unfoldable pub apply_policy : Time → Uuid → Uuid → Policy → Time → Action S (Unit {0})
  apply_policy now new_id meta_id policy created_at =
      store.upsert_state
        (state_from new_id meta_id now (compute_state (starting_input policy created_at now)))
