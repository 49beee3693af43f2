-- ===== src/Admin/Handler/Rules.antt =====
-- internal/admin/handler.go: the auto-ticket rules.
use ticketowl.Base.{String, Option, str_eq, if◌then◌else◌, List, is_no_rows, Error}
use ticketowl.Sla.Types.{Uuid}
use ticketowl.Db.{Db}
use ticketowl.Admin.Types.{AutoTicketRule, CreateAutoTicketRuleRequest, UpdateAutoTicketRuleRequest}
use ticketowl.Admin.Store.Rules.{
  list_auto_ticket_rules, create_auto_ticket_rule, update_auto_ticket_rule, delete_auto_ticket_rule,
}
use ticketowl.Http.Respond.{Handled, respond, respond_error, no_content, call, parsed}

-- `by_name` is the ORDER BY of the query
unfoldable pub handle_list_rules :
    (List AutoTicketRule → List AutoTicketRule) → Handled Db (List AutoTicketRule)
handle_list_rules by_name =
    call (list_auto_ticket_rules by_name)
      (λ e. respond_error 500 "internal_error" "failed to list rules") (respond 200)

abbrev pub with_defaults : CreateAutoTicketRuleRequest → CreateAutoTicketRuleRequest
with_defaults req = record req {
  default_priority = if str_eq req.default_priority "" then "normal" else req.default_priority;
  title_template =
      if str_eq req.title_template "" then "{{.AlertName}}: {{.Summary}}" else req.title_template;
}

unfoldable pub handle_create_rule : Option CreateAutoTicketRuleRequest → Handled Db AutoTicketRule
handle_create_rule body =
    parsed body (respond_error 400 "bad_request" "invalid request body") λ req.
      if str_eq req.name ""
      then respond_error 400 "bad_request" "name is required"
      else call (create_auto_ticket_rule (with_defaults req))
          (λ e. respond_error 500 "internal_error" "failed to create rule") (respond 201)

-- `not_found` of errors.Is, or a failure
abbrev rule_failed : {A : Type 0} → String → Error → Handled Db A
rule_failed message e =
    if is_no_rows e
    then respond_error 404 "not_found" "rule not found"
    else respond_error 500 "internal_error" message

unfoldable pub handle_update_rule :
    Option Uuid → Option UpdateAutoTicketRuleRequest → Handled Db AutoTicketRule
handle_update_rule param body =
    parsed param (respond_error 400 "bad_request" "invalid rule ID") λ id.
      parsed body (respond_error 400 "bad_request" "invalid request body") λ req.
        call (update_auto_ticket_rule id req) (rule_failed "failed to update rule") (respond 200)

unfoldable pub handle_delete_rule : Option Uuid → Handled Db (Unit {0})
handle_delete_rule param = parsed param (respond_error 400 "bad_request" "invalid rule ID") λ id.
    call (delete_auto_ticket_rule id) (rule_failed "failed to delete rule") (λ done. no_content)
