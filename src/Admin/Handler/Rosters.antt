-- ===== src/Admin/Handler/Rosters.antt =====
-- internal/admin/handler.go: the mappings of groups to rosters.
use ticketowl.Base.{String, Option, ◌||◌, str_eq, if◌then◌else◌, List, is_no_rows, Error}
use ticketowl.Sla.Types.{Uuid}
use ticketowl.Db.{Db}
use ticketowl.Admin.Types.{
  GroupRosterMapping, CreateGroupRosterMappingRequest, UpdateGroupRosterMappingRequest,
}
use ticketowl.Admin.Store.Rosters.{
  list_group_roster_mappings, create_group_roster_mapping, update_group_roster_mapping,
  delete_group_roster_mapping,
}
use ticketowl.Http.Respond.{Handled, respond, respond_error, no_content, call, parsed}

-- `by_name` is the ORDER BY of the query
unfoldable pub handle_list_group_roster_mappings :
    (List GroupRosterMapping → List GroupRosterMapping) → Handled Db (List GroupRosterMapping)
handle_list_group_roster_mappings by_name =
    call (list_group_roster_mappings by_name)
      (λ e. respond_error 500 "internal_error" "failed to list mappings") (respond 200)

unfoldable pub handle_create_group_roster_mapping :
    Option CreateGroupRosterMappingRequest → Handled Db GroupRosterMapping
handle_create_group_roster_mapping body =
    parsed body (respond_error 400 "bad_request" "invalid request body") λ req.
      if str_eq req.zammad_group "" || str_eq req.roster_id ""
      then respond_error 400 "bad_request" "zammad_group and roster_id are required"
      else call (create_group_roster_mapping req)
          (λ e. respond_error 500 "internal_error" "failed to create mapping") (respond 201)

-- `not_found` of errors.Is, or a failure
abbrev mapping_failed : {A : Type 0} → String → Error → Handled Db A
mapping_failed message e =
    if is_no_rows e
    then respond_error 404 "not_found" "mapping not found"
    else respond_error 500 "internal_error" message

unfoldable pub handle_update_group_roster_mapping :
    Option Uuid → Option UpdateGroupRosterMappingRequest → Handled Db GroupRosterMapping
handle_update_group_roster_mapping param body =
    parsed param (respond_error 400 "bad_request" "invalid mapping ID") λ id.
      parsed body (respond_error 400 "bad_request" "invalid request body") λ req.
        call (update_group_roster_mapping id req) (mapping_failed "failed to update mapping")
          (respond 200)

unfoldable pub handle_delete_group_roster_mapping : Option Uuid → Handled Db (Unit {0})
handle_delete_group_roster_mapping param =
    parsed param (respond_error 400 "bad_request" "invalid mapping ID") λ id.
      call (delete_group_roster_mapping id) (mapping_failed "failed to delete mapping")
        (λ done. no_content)
