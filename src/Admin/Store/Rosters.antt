-- ===== src/Admin/Store/Rosters.antt =====
-- internal/admin/store.go: the rosters of the Zammad groups. `by_group` is the database's ORDER BY
-- zammad_group, which depends on the collation.
use ticketowl.Base.Table.{update, delete}
use ticketowl.Base.{
  List, String, Action, Bool, get_or, str_eq, ◌==◌, ok, true, find?, if◌then◌else◌, ◌++◌, none, any,
  ◌∷◌, err, [], no_rows, failed, some, suc,
}
use ticketowl.Admin.Types.{
  CreateGroupRosterMappingRequest, UpdateGroupRosterMappingRequest, GroupRosterMapping,
}
use ticketowl.Sla.Types.{Uuid}
use ticketowl.Db.{Db, query, row}

unfoldable pub list_group_roster_mappings :
    (List GroupRosterMapping → List GroupRosterMapping) → Action Db (List GroupRosterMapping)
list_group_roster_mappings by_group = query λ db. (ok (by_group db.group_roster_mappings), db)

abbrev pub of_group : String → GroupRosterMapping → Bool
of_group group m = str_eq m.zammad_group group

-- UNIQUE (zammad_group)
unfoldable pub create_group_roster_mapping :
    CreateGroupRosterMappingRequest → Action Db GroupRosterMapping
create_group_roster_mapping req = query λ db.
    let m : GroupRosterMapping = record {
      id = db.next_id;
      zammad_group = req.zammad_group;
      roster_id = req.roster_id;
      auto_assign = get_or req.auto_assign true;
      escalate_to_secondary = get_or req.escalate_to_secondary true;
      created_at = db.clock;
    } in
    let mappings = db.group_roster_mappings ++ m ∷ [] in
    if any (of_group req.zammad_group) db.group_roster_mappings
    then (err failed, db)
    else (ok m, record db { next_id = suc db.next_id; group_roster_mappings = mappings })

abbrev has_id : Uuid → GroupRosterMapping → Bool
has_id id m = m.id == id

abbrev coalesce_mapping : UpdateGroupRosterMappingRequest → GroupRosterMapping → GroupRosterMapping
coalesce_mapping req m = record m {
  roster_id = get_or req.roster_id m.roster_id;
  auto_assign = get_or req.auto_assign m.auto_assign;
  escalate_to_secondary = get_or req.escalate_to_secondary m.escalate_to_secondary;
}

unfoldable pub update_group_roster_mapping :
    Uuid → UpdateGroupRosterMappingRequest → Action Db GroupRosterMapping
update_group_roster_mapping id req = query λ db. elim (find? (has_id id) db.group_roster_mappings) [
  | none ↦ (err no_rows, db)
  | some m ↦
      let m' = coalesce_mapping req m in
      (
        ok m',
        record db { group_roster_mappings = update (has_id id) (λ _. m') db.group_roster_mappings },
      )
]

unfoldable pub delete_group_roster_mapping : Uuid → Action Db (Unit {0})
delete_group_roster_mapping id = query λ db.
    if any (has_id id) db.group_roster_mappings
    then (ok tt, record db { group_roster_mappings = delete (has_id id) db.group_roster_mappings })
    else (err no_rows, db)

unfoldable pub get_group_roster_mapping_by_zammad_group : String → Action Db GroupRosterMapping
get_group_roster_mapping_by_zammad_group group =
    query λ db. row (find? (of_group group) db.group_roster_mappings) db
