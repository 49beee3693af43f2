-- ===== src/Link/Handler.antt =====
-- internal/link/handler.go. A path segment is the number that strconv.Atoi reads, none if it refuses it;
-- `body` is the decoded JSON. A client that cannot be resolved is left out of the service.
mod Tests
use ticketowl.Base.{
  ℕ, String, List, [], Option, none, some, Result, ok, err, Action, Error, not_configured, str_eq,
  if◌then◌else◌, is_no_rows, Bool, true, false,
}
use ticketowl.Sla.Types.{Uuid}
use ticketowl.NightOwl.Types.{Incident}
use ticketowl.BookOwl.{ArticleSummary, SearchOptions}
use ticketowl.Link.Types.{IncidentLink, ArticleLink, TicketLinks}
use ticketowl.Link.Service.{
  LinkStore, NightOwlClient, BookOwlClient, get_links, link_incident, unlink_incident, link_article,
  unlink_article,
}
use ticketowl.Http.Client.{is_not_found}
use ticketowl.Http.Respond.{Handled, respond, respond_error, no_content, call, parsed}

-- `errors.Is(err, ErrIntegrationNotConfigured)`
abbrev pub is_not_configured : Error → Bool
is_not_configured not_configured = true
is_not_configured _ = false

pub record CreateIncidentLinkRequest : Type 0 where
  pub incident_id : String

pub record CreateArticleLinkRequest : Type 0 where
  pub article_id : String

module _ {S A : Type 0} where
  abbrev pub with_ticket : Option ℕ → (ℕ → Handled S A) → Handled S A
  with_ticket param = parsed param (respond_error 400 "bad_request" "invalid ticket ID")

  abbrev pub link_failed : String → String → String → Error → Handled S A
  link_failed unconfigured missing message e =
      if is_not_configured e
      then respond_error 422 "integration_not_configured" unconfigured
      else if is_not_found e
      then respond_error 404 "not_found" missing
      else if is_no_rows e
      then respond_error 404 "not_found" "ticket metadata not found"
      else respond_error 500 "internal_error" message

  abbrev pub unlink_failed : String → Error → Handled S A
  unlink_failed message e =
      if is_no_rows e
      then respond_error 404 "not_found" "link not found"
      else respond_error 500 "internal_error" message

  -- the client if it can be resolved
  abbrev pub resolved : {C : Type 0} → Action S C → (Option C → Handled S A) → Handled S A
  resolved m k s = let (r, s') = m s in elim r [ ok c ↦ k (some c) s' | err e ↦ k none s' ]

module _ {S : Type 0} (store : LinkStore S) (resolve_nightowl : Action S (NightOwlClient S))
    (resolve_bookowl : Action S (BookOwlClient S)) (parse_uuid : String → Option Uuid) where
  unfoldable pub handle_get_links : Option ℕ → Handled S TicketLinks
  handle_get_links param = with_ticket param λ zammad_id. resolved resolve_nightowl λ nightowl.
      resolved resolve_bookowl λ bookowl.
        call (get_links store nightowl bookowl parse_uuid zammad_id)
          (λ e. respond_error 500 "internal_error" "failed to get links") (respond 200)

  unfoldable pub handle_link_incident :
      Option ℕ → Option CreateIncidentLinkRequest → Uuid → Handled S IncidentLink
  handle_link_incident param body caller = with_ticket param λ zammad_id.
      parsed body (respond_error 400 "bad_request" "invalid request body") λ req.
        if str_eq req.incident_id ""
        then respond_error 400 "bad_request" "incident_id is required"
        else resolved resolve_nightowl λ nightowl. resolved resolve_bookowl λ bookowl.
          call (link_incident store nightowl bookowl parse_uuid zammad_id req.incident_id caller)
            (link_failed "NightOwl integration is not configured for this tenant"
              "incident not found in NightOwl" "failed to link incident")
            (respond 201)

  unfoldable pub handle_unlink_incident : Option ℕ → String → Handled S (Unit {0})
  handle_unlink_incident param incident_id = with_ticket param λ zammad_id.
      resolved resolve_nightowl λ nightowl. resolved resolve_bookowl λ bookowl.
        call (unlink_incident store nightowl bookowl parse_uuid zammad_id incident_id)
          (unlink_failed "failed to unlink incident") (λ done. no_content)

  unfoldable pub handle_link_article :
      Option ℕ → Option CreateArticleLinkRequest → Uuid → Handled S ArticleLink
  handle_link_article param body caller = with_ticket param λ zammad_id.
      parsed body (respond_error 400 "bad_request" "invalid request body") λ req.
        if str_eq req.article_id ""
        then respond_error 400 "bad_request" "article_id is required"
        else resolved resolve_nightowl λ nightowl. resolved resolve_bookowl λ bookowl.
          call (link_article store nightowl bookowl parse_uuid zammad_id req.article_id caller)
            (link_failed "BookOwl integration is not configured for this tenant"
              "article not found in BookOwl" "failed to link article")
            (respond 201)

  unfoldable pub handle_unlink_article : Option ℕ → String → Handled S (Unit {0})
  handle_unlink_article param article_id = with_ticket param λ zammad_id.
      resolved resolve_nightowl λ nightowl. resolved resolve_bookowl λ bookowl.
        call (unlink_article store nightowl bookowl parse_uuid zammad_id article_id)
          (unlink_failed "failed to unlink article") (λ done. no_content)

pub record IncidentSearcher (S : Type 0) : Type 0 where
  pub search_incidents : String → ℕ → Action S (List Incident)

pub record ArticleSearcher (S : Type 0) : Type 0 where
  pub search_articles : SearchOptions → Action S (List ArticleSummary)

unfoldable pub handle_search_incidents :
    {S : Type 0} → Action S (IncidentSearcher S) → String → Handled S (List Incident)
handle_search_incidents resolve q =
    if str_eq q ""
    then respond 200 []
    else call resolve
        (λ e.
          respond_error 422 "integration_not_configured" "NightOwl integration is not configured")
        λ nightowl.
          call (nightowl.search_incidents q 20)
            (λ e. respond_error 502 "upstream_error" "failed to search NightOwl incidents")
            (respond 200)

unfoldable pub handle_search_articles :
    {S : Type 0} → Action S (ArticleSearcher S) → String → Handled S (List ArticleSummary)
handle_search_articles resolve q =
    if str_eq q ""
    then respond 200 []
    else call resolve
        (λ e.
          respond_error 422 "integration_not_configured" "BookOwl integration is not configured")
        λ bookowl.
          call (bookowl.search_articles (record { query = q; tags = []; limit = 20 }))
            (λ e. respond_error 502 "upstream_error" "failed to search BookOwl articles")
            (respond 200)
