-- ===== src/Admin/Handler/Orgs.antt =====
-- internal/admin/handler.go: the customers' organisations.
use ticketowl.Base.{String, Option, ◌||◌, str_eq, if◌then◌else◌, List, is_no_rows, Error}
use ticketowl.Sla.Types.{Uuid}
use ticketowl.Db.{Db}
use ticketowl.Admin.Types.{CustomerOrg, CreateCustomerOrgRequest, UpdateCustomerOrgRequest}
use ticketowl.Admin.Store.Orgs.{
  list_customer_orgs, create_customer_org, update_customer_org, delete_customer_org,
}
use ticketowl.Http.Respond.{Handled, respond, respond_error, no_content, call, parsed}

-- `by_name` is the ORDER BY of the query
unfoldable pub handle_list_customer_orgs :
    (List CustomerOrg → List CustomerOrg) → Handled Db (List CustomerOrg)
handle_list_customer_orgs by_name =
    call (list_customer_orgs by_name)
      (λ e. respond_error 500 "internal_error" "failed to list customer orgs") (respond 200)

unfoldable pub handle_create_customer_org : Option CreateCustomerOrgRequest → Handled Db CustomerOrg
handle_create_customer_org body =
    parsed body (respond_error 400 "bad_request" "invalid request body") λ req.
      if str_eq req.name "" || str_eq req.oidc_group ""
      then respond_error 400 "bad_request" "name and oidc_group are required"
      else call (create_customer_org req)
          (λ e. respond_error 500 "internal_error" "failed to create customer org") (respond 201)

-- `not_found` of errors.Is, or a failure
abbrev org_failed : {A : Type 0} → String → Error → Handled Db A
org_failed message e =
    if is_no_rows e
    then respond_error 404 "not_found" "customer org not found"
    else respond_error 500 "internal_error" message

unfoldable pub handle_update_customer_org :
    Option Uuid → Option UpdateCustomerOrgRequest → Handled Db CustomerOrg
handle_update_customer_org param body =
    parsed param (respond_error 400 "bad_request" "invalid customer org ID") λ id.
      parsed body (respond_error 400 "bad_request" "invalid request body") λ req.
        call (update_customer_org id req) (org_failed "failed to update customer org") (respond 200)

unfoldable pub handle_delete_customer_org : Option Uuid → Handled Db (Unit {0})
handle_delete_customer_org param =
    parsed param (respond_error 400 "bad_request" "invalid customer org ID") λ id.
      call (delete_customer_org id) (org_failed "failed to delete customer org")
        (λ done. no_content)
