-- ===== src/Customer/Store.antt =====
-- internal/customer/store.go: the queries of the portal, all of which only read.
use ticketowl.Base.{ℕ, List, Option, none, some, Action, ok, ◌==◌, filter, find?, Bool}
use ticketowl.Base.Sort.{sort_by}
use ticketowl.Sla.Types.{Uuid, State}
use ticketowl.Sla.Store.{has_zammad_id, of_ticket}
use ticketowl.Db.{Db, query, row}
use ticketowl.Admin.Types.{CustomerOrg}
use ticketowl.Ticket.Types.{meta_id_of}
use ticketowl.Link.Types.{ArticleLink}
use ticketowl.Customer.Types.{Org, CustomerStore}

abbrev pub has_org_id : Uuid → CustomerOrg → Bool
has_org_id id o = o.id == id

abbrev pub org_of : Option CustomerOrg → Option Org
org_of none = none
org_of (some o) = some (record {
  id = o.id;
  name = o.name;
  oidc_group = o.oidc_group;
  zammad_org_id = o.zammad_org_id;
  created_at = o.created_at;
  updated_at = o.updated_at;
})

unfoldable pub get_org : Uuid → Action Db Org
get_org org_id = query λ db. row (org_of (find? (has_org_id org_id) db.customer_orgs)) db

unfoldable pub get_ticket_meta_id : ℕ → Action Db Uuid
get_ticket_meta_id zammad_id =
    query λ db. row (meta_id_of (find? (has_zammad_id zammad_id) db.ticket_meta)) db

abbrev pub article_of : Uuid → ArticleLink → Bool
article_of meta_id l = l.ticket_meta_id == meta_id

unfoldable pub list_article_links : Uuid → Action Db (List ArticleLink)
unfolding sort_by
list_article_links meta_id =
    query
      λ db. (ok (sort_by (λ l. l.created_at) (filter (article_of meta_id) db.article_links)), db)

unfoldable pub get_sla_state : Uuid → Action Db State
get_sla_state meta_id = query λ db. row (find? (of_ticket meta_id) db.sla_states) db

-- `Store` as a `CustomerStore`
abbrev pub customer_store : CustomerStore Db
customer_store = record {
  get_org = get_org;
  get_ticket_meta_id = get_ticket_meta_id;
  list_article_links = list_article_links;
  get_sla_state = get_sla_state;
}
