-- ===== src/Sla/Handler.antt =====
-- internal/sla/handler.go. `param` is the parsed path segment and `body` the decoded JSON, none if
-- they cannot be parsed.
pub mod Laws
pub mod Minutes
mod Tests
use ticketowl.Base.{ℕ, String, List, Option, Error, ◌||◌, str_eq, if◌then◌else◌, is_no_rows, Bool}
use ticketowl.Base.Int.{ℤ, pos, leb_ℤ}
use ticketowl.Sla.Types.{Uuid, Policy, State, CreatePolicyRequest, UpdatePolicyRequest}
use ticketowl.Sla.Service.{
  SlaStore, list_policies, create_policy, update_policy, delete_policy, get_ticket_sla_by_zammad_id,
}
use ticketowl.Http.Respond.{Handled, respond, respond_error, no_content, call, parsed}

-- `minutes <= 0`
abbrev pub not_positive : ℤ → Bool
not_positive minutes = leb_ℤ minutes (pos 0)

abbrev pub or_not_found : {S A : Type 0} → String → String → Error → Handled S A
or_not_found what message e =
    if is_no_rows e
    then respond_error 404 "not_found" what
    else respond_error 500 "internal_error" message

module _ {S : Type 0} (store : SlaStore S) where
  unfoldable pub handle_list_policies : Handled S (List Policy)
  handle_list_policies =
      call (list_policies store) (λ e. respond_error 500 "internal_error" "failed to list policies")
        (respond 200)

  unfoldable pub handle_create_policy : Option CreatePolicyRequest → Handled S Policy
  handle_create_policy body =
      parsed body (respond_error 400 "bad_request" "invalid request body") λ req.
        if str_eq req.name "" || str_eq req.priority ""
        then respond_error 400 "bad_request" "name and priority are required"
        else if not_positive req.response_minutes || not_positive req.resolution_minutes
        then respond_error 400 "bad_request"
            "response_minutes and resolution_minutes must be positive"
        else call (create_policy store req)
            (λ e. respond_error 500 "internal_error" "failed to create policy") (respond 201)

  unfoldable pub handle_update_policy : Option Uuid → Option UpdatePolicyRequest → Handled S Policy
  handle_update_policy param body =
      parsed param (respond_error 400 "bad_request" "invalid policy ID") λ id.
        parsed body (respond_error 400 "bad_request" "invalid request body") λ req.
          call (update_policy store id req)
            (or_not_found "policy not found" "failed to update policy") (respond 200)

  unfoldable pub handle_delete_policy : Option Uuid → Handled S (Unit {0})
  handle_delete_policy param =
      parsed param (respond_error 400 "bad_request" "invalid policy ID") λ id.
        call (delete_policy store id) (or_not_found "policy not found" "failed to delete policy")
          (λ done. no_content)

  unfoldable pub handle_get_ticket_sla : Option ℕ → Handled S State
  handle_get_ticket_sla param =
      parsed param (respond_error 400 "bad_request" "invalid ticket ID") λ zammad_id.
        call (get_ticket_sla_by_zammad_id store zammad_id)
          (or_not_found "SLA state not found" "failed to get SLA state") (respond 200)
