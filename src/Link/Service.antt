-- ===== src/Link/Service.antt =====
-- internal/link/service.go: the links of a ticket, each checked against the service that owns the
-- other end. `parse_uuid` is `uuid.Parse`; an integration that is not set up is a client that is none.
pub mod Laws
mod Tests
use ticketowl.Base.{
  ℕ, String, List, Option, some, none, Action, ◌>>=◌, pure, raise, not_configured, or_raise, failed,
  Result, ok, err, attempt, if◌then◌else◌, is_no_rows, [],
}
use ticketowl.NightOwl.Types.{Incident}
use ticketowl.Link.Types.{IncidentLink, ArticleLink, PostMortemLink, TicketLinks}
use ticketowl.Sla.Types.{Uuid}
use ticketowl.BookOwl.{Article}

-- What the service calls of NightOwl and of BookOwl; it never searches them.
pub record NightOwlClient (S : Type 0) : Type 0 where
  pub get_incident : String → Action S Incident

pub record BookOwlClient (S : Type 0) : Type 0 where
  pub get_article : String → Action S Article

pub record LinkStore (S : Type 0) : Type 0 where
  pub get_ticket_meta_id : ℕ → Action S Uuid
  pub list_incident_links : Uuid → Action S (List IncidentLink)
  pub create_incident_link : Uuid → Uuid → Uuid → String → Action S IncidentLink
  pub delete_incident_link : Uuid → Uuid → Action S (Unit {0})
  pub list_article_links : Uuid → Action S (List ArticleLink)
  pub create_article_link : Uuid → Uuid → Uuid → String → String → Action S ArticleLink
  pub delete_article_link : Uuid → Uuid → Action S (Unit {0})
  pub get_postmortem_link : Uuid → Action S PostMortemLink
  pub create_postmortem_link : Uuid → Uuid → Uuid → String → Action S PostMortemLink

abbrev pub no_links : TicketLinks
no_links = record { incidents = []; articles = []; postmortem = none }

module _ {S : Type 0} (store : LinkStore S) (nightowl : Option (NightOwlClient S))
    (bookowl : Option (BookOwlClient S)) (parse_uuid : String → Option Uuid) where
  abbrev postmortem_result : Result PostMortemLink → Action S (Option PostMortemLink)
  postmortem_result (ok l) = pure (some l)
  postmortem_result (err e) = if is_no_rows e then pure none else raise e

  abbrev links_of : Uuid → Action S TicketLinks
  links_of meta_id = store.list_incident_links meta_id >>= λ incidents.
      store.list_article_links meta_id >>= λ articles.
      attempt (store.get_postmortem_link meta_id) >>= λ r. postmortem_result r >>= λ pm.
      pure (record { incidents = incidents; articles = articles; postmortem = pm })

  abbrev links_if_tracked : Result Uuid → Action S TicketLinks
  links_if_tracked (ok meta_id) = links_of meta_id
  links_if_tracked (err e) = if is_no_rows e then pure no_links else raise e

  unfoldable pub get_links : ℕ → Action S TicketLinks
  get_links zammad_id = attempt (store.get_ticket_meta_id zammad_id) >>= links_if_tracked

  abbrev pub link_parsed : ℕ → Uuid → Incident → Uuid → Action S IncidentLink
  link_parsed zammad_id linked_by incident incident_id =
      store.get_ticket_meta_id zammad_id >>= λ meta_id.
      store.create_incident_link meta_id incident_id linked_by incident.slug

  abbrev pub link_found : ℕ → String → Uuid → Incident → Action S IncidentLink
  link_found zammad_id incident_id_str linked_by incident =
      or_raise (parse_uuid incident_id_str) failed >>= link_parsed zammad_id linked_by incident

  abbrev pub link_incident_with : NightOwlClient S → ℕ → String → Uuid → Action S IncidentLink
  link_incident_with client zammad_id incident_id_str linked_by =
      client.get_incident incident_id_str >>= link_found zammad_id incident_id_str linked_by

  unfoldable pub link_incident : ℕ → String → Uuid → Action S IncidentLink
  link_incident zammad_id incident_id_str linked_by = elim nightowl [
    | none ↦ raise not_configured
    | some client ↦ link_incident_with client zammad_id incident_id_str linked_by
  ]

  unfoldable pub unlink_incident : ℕ → String → Action S (Unit {0})
  unlink_incident zammad_id incident_id_str =
      or_raise (parse_uuid incident_id_str) failed >>= λ incident_id.
      store.get_ticket_meta_id zammad_id >>= λ meta_id.
      store.delete_incident_link meta_id incident_id

  abbrev pub link_article_with : BookOwlClient S → ℕ → String → Uuid → Action S ArticleLink
  link_article_with client zammad_id article_id_str linked_by =
      client.get_article article_id_str >>= λ article.
      or_raise (parse_uuid article_id_str) failed >>= λ article_id.
      store.get_ticket_meta_id zammad_id >>= λ meta_id.
      store.create_article_link meta_id article_id linked_by article.slug article.title

  unfoldable pub link_article : ℕ → String → Uuid → Action S ArticleLink
  link_article zammad_id article_id_str linked_by = elim bookowl [
    | none ↦ raise not_configured
    | some client ↦ link_article_with client zammad_id article_id_str linked_by
  ]

  unfoldable pub unlink_article : ℕ → String → Action S (Unit {0})
  unlink_article zammad_id article_id_str =
      or_raise (parse_uuid article_id_str) failed >>= λ article_id.
      store.get_ticket_meta_id zammad_id >>= λ meta_id. store.delete_article_link meta_id article_id
