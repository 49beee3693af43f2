-- ===== src/Admin/Store/Orgs.antt =====
-- internal/admin/store.go: the organisations of the customers. `by_name` is the database's ORDER BY
-- name, which depends on the collation.
use ticketowl.Base.Table.{update, delete}
use ticketowl.Base.{
  List, String, Option, Action, Bool, ℕ, ◌==◌, str_eq, true, some, get_or, ◌&&◌, Result, ok, ltb,
  suc, none, not, if◌then◌else◌, find?, ◌^◌, ◌++◌, any, err, ◌∷◌, failed, no_rows, [],
}
use ticketowl.Sla.Types.{Uuid, Time}
use ticketowl.Admin.Types.{CreateCustomerOrgRequest, UpdateCustomerOrgRequest, CustomerOrg}
use ticketowl.Db.{Db, query}

unfoldable pub list_customer_orgs :
    (List CustomerOrg → List CustomerOrg) → Action Db (List CustomerOrg)
list_customer_orgs by_name = query λ db. (ok (by_name db.customer_orgs), db)

abbrev has_id : Uuid → CustomerOrg → Bool
has_id id o = o.id == id

abbrev pub in_oidc_group : String → CustomerOrg → Bool
in_oidc_group group o = str_eq o.oidc_group group

-- the column is an INTEGER
abbrev fits : Option ℕ → Bool
fits none = true
fits (some n) = ltb n (2 ^ 31)

-- UNIQUE (oidc_group)
unfoldable pub create_customer_org : CreateCustomerOrgRequest → Action Db CustomerOrg
create_customer_org req = query λ db.
    let o : CustomerOrg = record {
      id = db.next_id;
      name = req.name;
      oidc_group = req.oidc_group;
      zammad_org_id = req.zammad_org_id;
      created_at = db.clock;
      updated_at = db.clock;
    } in
    let db' = record db { next_id = suc db.next_id; customer_orgs = db.customer_orgs ++ o ∷ [] } in
    if fits req.zammad_org_id && not (any (in_oidc_group req.oidc_group) db.customer_orgs)
    then (ok o, db')
    else (err failed, db)

abbrev coalesce_id : Option ℕ → Option ℕ → Option ℕ
coalesce_id none old = old
coalesce_id (some n) old = some n

abbrev coalesce_org : UpdateCustomerOrgRequest → Time → CustomerOrg → CustomerOrg
coalesce_org req now o = record o {
  name = get_or req.name o.name;
  oidc_group = get_or req.oidc_group o.oidc_group;
  zammad_org_id = coalesce_id req.zammad_org_id o.zammad_org_id;
  updated_at = now;
}

abbrev group_taken : CustomerOrg → CustomerOrg → Bool
group_taken o q = in_oidc_group o.oidc_group q && not (q.id == o.id)

abbrev write_org : CustomerOrg → Db → Result CustomerOrg × Db
write_org o db =
    if fits o.zammad_org_id && not (any (group_taken o) db.customer_orgs)
    then (ok o, record db { customer_orgs = update (has_id o.id) (λ _. o) db.customer_orgs })
    else (err failed, db)

unfoldable pub update_customer_org : Uuid → UpdateCustomerOrgRequest → Action Db CustomerOrg
update_customer_org id req = query λ db. elim (find? (has_id id) db.customer_orgs) [
  | none ↦ (err no_rows, db)
  | some o ↦ write_org (coalesce_org req db.clock o) db
]

unfoldable pub delete_customer_org : Uuid → Action Db (Unit {0})
delete_customer_org id = query λ db.
    if any (has_id id) db.customer_orgs
    then (ok tt, record db { customer_orgs = delete (has_id id) db.customer_orgs })
    else (err no_rows, db)
