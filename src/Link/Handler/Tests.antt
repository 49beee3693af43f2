-- ===== src/Link/Handler/Tests.antt =====
-- The examples of internal/link/handler.go, over the tenant's database.
use ticketowl.Http.Client.{is_not_found}
use ticketowl.Base.{String, some, none, raise, no_rows, refl, ◌≡◌, pure, [], ◌∷◌, Option, Action}
use ticketowl.Sla.Types.{Uuid}
use ticketowl.Db.{Db, query}
use ticketowl.Db.Sample.{empty_db, sample_meta}
use ticketowl.NightOwl.Types.{Incident}
use ticketowl.Base.Int.{pos}
use ticketowl.Link.Store
use ticketowl.Link.Service.{
  LinkStore, NightOwlClient, BookOwlClient, link_incident, unlink_incident,
}
use ticketowl.Link.Handler.{handle_link_incident, handle_unlink_incident}

abbrev db_links : LinkStore Db
db_links = record {
  get_ticket_meta_id = Store.get_ticket_meta_id;
  list_incident_links = Store.list_incident_links;
  create_incident_link = Store.create_incident_link;
  delete_incident_link = Store.delete_incident_link;
  list_article_links = Store.list_article_links;
  create_article_link = Store.create_article_link;
  delete_article_link = Store.delete_article_link;
  get_postmortem_link = Store.get_postmortem_link;
  create_postmortem_link = Store.create_postmortem_link;
}

abbrev one_incident : Incident
one_incident = record {
  id = "12";
  slug = "INC-12";
  summary = "disk full";
  severity = "critical";
  status = "open";
  service = "db";
  tags = [];
  created_at = pos 0;
  resolved_at = none;
}

abbrev nightowl : NightOwlClient Db
nightowl = record { get_incident = λ text. pure one_incident }

abbrev no_bookowl : Action Db (BookOwlClient Db)
no_bookowl = raise no_rows

abbrev twelve : String → Option Uuid
twelve text = some 12

abbrev tracked : Db
tracked = record empty_db { ticket_meta = sample_meta ∷ [] }

-- The second link of the pair fails on the unique key, which is no conflict but a server error.
link_twice :
    let post =
      handle_link_incident db_links
        (pure nightowl)
        no_bookowl
        twelve
        (some 41)
        (some (record { incident_id = "12" }))
        3 in
    ((post tracked).0.status ≡ 201) × ((post (post tracked).1).0.status ≡ 500)
unfolding handle_link_incident link_incident query Store.get_ticket_meta_id is_not_found
    Store.create_incident_link
link_twice = (refl, refl)

not_configured_422 :
    (handle_link_incident db_links
      (raise no_rows)
      no_bookowl
      twelve
      (some 41)
      (some (record { incident_id = "12" }))
      3
      tracked).0.status
    ≡ 422
unfolding handle_link_incident link_incident
not_configured_422 = refl

unlink_missing_404 :
    (handle_unlink_incident db_links
      (pure nightowl)
      no_bookowl
      twelve
      (some 41)
      "12"
      tracked).0.status
    ≡ 404
unfolding handle_unlink_incident unlink_incident query Store.get_ticket_meta_id is_not_found
    Store.delete_incident_link
unlink_missing_404 = refl
