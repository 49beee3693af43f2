-- ===== src/Link/Store.antt =====
-- internal/link/store.go: the links of a ticket to incidents, articles and its post-mortem.
pub mod Laws
mod Tests
use ticketowl.Base.Sort.{sort_by}
use ticketowl.Sla.Store.{has_zammad_id, has_meta_id}
use ticketowl.Base.{
  ℕ, Action, String, Bool, ◌==◌, ◌&&◌, List, ok, suc, filter, ◌++◌, if◌then◌else◌, find?, ◌∷◌, any,
  [], err, not, no_rows, failed,
}
use ticketowl.Sla.Types.{Uuid}
use ticketowl.Link.Types.{IncidentLink, ArticleLink, PostMortemLink}
use ticketowl.Db.{Db, query, row}
use ticketowl.Base.Table.{delete}
use ticketowl.Ticket.Types.{meta_id_of}

unfoldable pub get_ticket_meta_id : ℕ → Action Db Uuid
get_ticket_meta_id zammad_id =
    query λ db. row (meta_id_of (find? (has_zammad_id zammad_id) db.ticket_meta)) db

abbrev incident_of : Uuid → IncidentLink → Bool
incident_of meta_id l = l.ticket_meta_id == meta_id

abbrev pub links_incident : Uuid → Uuid → IncidentLink → Bool
links_incident meta_id incident_id l = incident_of meta_id l && (l.incident_id == incident_id)

unfoldable pub list_incident_links : Uuid → Action Db (List IncidentLink)
unfolding sort_by
list_incident_links meta_id =
    query
      λ db. (ok (sort_by (λ l. l.created_at) (filter (incident_of meta_id) db.incident_links)), db)

-- UNIQUE (ticket_meta_id, incident_id), and the foreign key to ticket_meta
unfoldable pub create_incident_link : Uuid → Uuid → Uuid → String → Action Db IncidentLink
create_incident_link meta_id incident_id linked_by slug = query λ db.
    let l : IncidentLink = record {
      id = db.next_id;
      ticket_meta_id = meta_id;
      incident_id = incident_id;
      incident_slug = slug;
      linked_by = linked_by;
      created_at = db.clock;
    } in
    let db' = record db {
      next_id = suc db.next_id;
      incident_links = db.incident_links ++ l ∷ [];
    } in
    if any (has_meta_id meta_id) db.ticket_meta
      && not (any (links_incident meta_id incident_id) db.incident_links)
    then (ok l, db')
    else (err failed, db)

unfoldable pub delete_incident_link : Uuid → Uuid → Action Db (Unit {0})
delete_incident_link meta_id incident_id = query λ db.
    let kept = delete (links_incident meta_id incident_id) db.incident_links in
    if any (links_incident meta_id incident_id) db.incident_links
    then (ok tt, record db { incident_links = kept })
    else (err no_rows, db)

unfoldable pub list_incident_links_by_incident_id : Uuid → Action Db (List IncidentLink)
unfolding sort_by
list_incident_links_by_incident_id incident_id = query λ db.
    let links = filter (λ (l : IncidentLink). l.incident_id == incident_id) db.incident_links in
    (ok (sort_by (λ l. l.created_at) links), db)

abbrev article_of : Uuid → ArticleLink → Bool
article_of meta_id l = l.ticket_meta_id == meta_id

abbrev pub links_article : Uuid → Uuid → ArticleLink → Bool
links_article meta_id article_id l = article_of meta_id l && (l.article_id == article_id)

unfoldable pub list_article_links : Uuid → Action Db (List ArticleLink)
unfolding sort_by
list_article_links meta_id =
    query
      λ db. (ok (sort_by (λ l. l.created_at) (filter (article_of meta_id) db.article_links)), db)

unfoldable pub create_article_link : Uuid → Uuid → Uuid → String → String → Action Db ArticleLink
create_article_link meta_id article_id linked_by slug title = query λ db.
    let l : ArticleLink = record {
      id = db.next_id;
      ticket_meta_id = meta_id;
      article_id = article_id;
      article_slug = slug;
      article_title = title;
      linked_by = linked_by;
      created_at = db.clock;
    } in
    let db' = record db { next_id = suc db.next_id; article_links = db.article_links ++ l ∷ [] } in
    if any (has_meta_id meta_id) db.ticket_meta
      && not (any (links_article meta_id article_id) db.article_links)
    then (ok l, db')
    else (err failed, db)

unfoldable pub delete_article_link : Uuid → Uuid → Action Db (Unit {0})
delete_article_link meta_id article_id = query λ db.
    let kept = delete (links_article meta_id article_id) db.article_links in
    if any (links_article meta_id article_id) db.article_links
    then (ok tt, record db { article_links = kept })
    else (err no_rows, db)

abbrev pub postmortem_of : Uuid → PostMortemLink → Bool
postmortem_of meta_id l = l.ticket_meta_id == meta_id

unfoldable pub get_postmortem_link : Uuid → Action Db PostMortemLink
get_postmortem_link meta_id = query λ db. row (find? (postmortem_of meta_id) db.postmortem_links) db

-- UNIQUE (ticket_meta_id)
unfoldable pub create_postmortem_link : Uuid → Uuid → Uuid → String → Action Db PostMortemLink
create_postmortem_link meta_id postmortem_id created_by url = query λ db.
    let l : PostMortemLink = record {
      id = db.next_id;
      ticket_meta_id = meta_id;
      postmortem_id = postmortem_id;
      postmortem_url = url;
      created_by = created_by;
      created_at = db.clock;
    } in
    let db' = record db {
      next_id = suc db.next_id;
      postmortem_links = db.postmortem_links ++ l ∷ [];
    } in
    if any (has_meta_id meta_id) db.ticket_meta
      && not (any (postmortem_of meta_id) db.postmortem_links)
    then (ok l, db')
    else (err failed, db)
