-- ===== src/Link/Service/Tests.antt =====
-- The examples of internal/link/service.go, over the tenant database.
use ticketowl.Link.Service.{NightOwlClient, LinkStore, link_incident, get_links, no_links}
use ticketowl.Link.Store
use ticketowl.Db.{Db, query}
use ticketowl.Db.Sample.{empty_db, sample_meta}
use ticketowl.Base.{
  none, some, ok, refl, Option, String, if◌then◌else◌, ◌∷◌, [], str_eq, err, api, ◌≡◌,
  not_configured,
}
use ticketowl.NightOwl.Types.{Incident}
use ticketowl.Sla.Types.{Uuid}
use ticketowl.Base.Int.{pos}

abbrev db_links : LinkStore Db
db_links = record {
  get_ticket_meta_id = Store.get_ticket_meta_id;
  list_incident_links = Store.list_incident_links;
  create_incident_link = Store.create_incident_link;
  delete_incident_link = Store.delete_incident_link;
  list_article_links = Store.list_article_links;
  create_article_link = Store.create_article_link;
  delete_article_link = Store.delete_article_link;
  get_postmortem_link = Store.get_postmortem_link;
  create_postmortem_link = Store.create_postmortem_link;
}

abbrev one_incident : Incident
one_incident = record {
  id = "12";
  slug = "INC-12";
  summary = "disk full";
  severity = "critical";
  status = "open";
  service = "db";
  tags = [];
  created_at = pos 0;
  resolved_at = none;
}

abbrev nightowl : NightOwlClient Db
nightowl = record {
  get_incident = λ text db. if str_eq text "12" then (ok one_incident, db) else (err (api 404), db);
}

abbrev parse_uuid : String → Option Uuid
parse_uuid text = if str_eq text "12" then some 12 else none

abbrev tracked : Db
tracked = record empty_db { ticket_meta = sample_meta ∷ [] }

link_incident_unknown :
    link_incident db_links (some nightowl) none parse_uuid 41 "13" 3 tracked
    ≡ (err (api 404), tracked)
unfolding link_incident
link_incident_unknown = refl

link_incident_not_configured :
    link_incident db_links none none parse_uuid 41 "12" 3 tracked ≡ (err not_configured, tracked)
unfolding link_incident
link_incident_not_configured = refl

get_links_untracked : (get_links db_links none none parse_uuid 42 tracked).0 ≡ ok no_links
unfolding get_links query Store.get_ticket_meta_id
get_links_untracked = refl
