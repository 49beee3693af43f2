-- ===== src/Admin/Store/Rules.antt =====
-- internal/admin/store.go: the auto-ticket rules. `by_name` is the database's ORDER BY name, which
-- depends on the collation.
use ticketowl.Base.Table.{update, delete}
use ticketowl.Base.{
  List, Option, Action, String, Bool, some, get_or, ◌==◌, none, ok, true, find?, if◌then◌else◌,
  ◌++◌, err, any, ◌∷◌, no_rows, [], suc,
}
use ticketowl.Admin.Types.{CreateAutoTicketRuleRequest, UpdateAutoTicketRuleRequest, AutoTicketRule}
use ticketowl.Sla.Types.{Uuid, Time}
use ticketowl.Db.{Db, query}

unfoldable pub list_auto_ticket_rules :
    (List AutoTicketRule → List AutoTicketRule) → Action Db (List AutoTicketRule)
list_auto_ticket_rules by_name = query λ db. (ok (by_name db.auto_ticket_rules), db)

unfoldable pub create_auto_ticket_rule : CreateAutoTicketRuleRequest → Action Db AutoTicketRule
create_auto_ticket_rule req = query λ db.
    let r : AutoTicketRule = record {
      id = db.next_id;
      name = req.name;
      enabled = get_or req.enabled true;
      alert_group = req.alert_group;
      min_severity = req.min_severity;
      default_priority = req.default_priority;
      default_group = req.default_group;
      title_template = req.title_template;
      created_at = db.clock;
      updated_at = db.clock;
    } in
    let rules = db.auto_ticket_rules ++ r ∷ [] in
    (ok r, record db { next_id = suc db.next_id; auto_ticket_rules = rules })

abbrev has_id : Uuid → AutoTicketRule → Bool
has_id id r = r.id == id

abbrev coalesce_text : Option String → Option String → Option String
coalesce_text none old = old
coalesce_text (some t) old = some t

abbrev pub coalesce_rule : UpdateAutoTicketRuleRequest → Time → AutoTicketRule → AutoTicketRule
coalesce_rule req now r = record r {
  name = get_or req.name r.name;
  enabled = get_or req.enabled r.enabled;
  alert_group = coalesce_text req.alert_group r.alert_group;
  min_severity = coalesce_text req.min_severity r.min_severity;
  default_priority = get_or req.default_priority r.default_priority;
  default_group = coalesce_text req.default_group r.default_group;
  title_template = get_or req.title_template r.title_template;
  updated_at = now;
}

unfoldable pub update_auto_ticket_rule :
    Uuid → UpdateAutoTicketRuleRequest → Action Db AutoTicketRule
update_auto_ticket_rule id req = query λ db. elim (find? (has_id id) db.auto_ticket_rules) [
  | none ↦ (err no_rows, db)
  | some r ↦
      let r' = coalesce_rule req db.clock r in
      (ok r', record db { auto_ticket_rules = update (has_id id) (λ _. r') db.auto_ticket_rules })
]

unfoldable pub delete_auto_ticket_rule : Uuid → Action Db (Unit {0})
delete_auto_ticket_rule id = query λ db.
    if any (has_id id) db.auto_ticket_rules
    then (ok tt, record db { auto_ticket_rules = delete (has_id id) db.auto_ticket_rules })
    else (err no_rows, db)
