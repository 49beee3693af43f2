-- ===== src/Ticket/Handler.antt =====
-- internal/ticket/handler.go. A path segment is the number that strconv.Atoi reads, none if it refuses
-- it; `body` is the decoded JSON, none if it is not the JSON of the request. The clients are resolved
-- for each request.
mod Tests
use ticketowl.Base.{
  ℕ, String, List, [], Option, none, some, Action, Error, exists, str_eq, ◌==◌, ◌&&◌, if◌then◌else◌,
  get_or, is_no_rows,
}
use ticketowl.Sla.Types.{Uuid}
use ticketowl.Zammad.Types.{TicketState, TicketPriority, TicketGroup}
use ticketowl.Ticket.Types.{ListOptions, CreateRequest, UpdateRequest, EnrichedTicket}
use ticketowl.Ticket.Service.{TicketZammad, TicketStore, get, list, create, update, delete}
use ticketowl.Ticket.Suggestions.{BookOwlSearcher, Suggestion, get_suggestions}
use ticketowl.Ticket.PostMortem.{
  PostMortemCreator, IncidentFetcher, PostMortemStore, PostMortemResult, create_post_mortem,
}
use ticketowl.Http.Client.{is_not_found}
use ticketowl.Http.Respond.{Handled, respond, respond_error, no_content, call, parsed}

-- the caller's email and user of the request's identity
pub record Identity : Type 0 where
  pub email : String
  pub user_id : Option Uuid

abbrev pub caller_email : Option Identity → String
caller_email none = ""
caller_email (some identity) = identity.email

-- `uuid.Nil` without a user
abbrev pub created_by : Option Identity → Uuid
created_by none = 0
created_by (some identity) = get_or identity.user_id 0

-- the query string; a page that strconv.Atoi refuses is left out
pub record ListQuery : Type 0 where
  pub query : String
  pub page : Option ℕ
  pub per_page : Option ℕ
  pub order_by : String
  pub sort_by : String

abbrev pub list_options : ListQuery → ListOptions
list_options q = record {
  page = get_or q.page 0;
  per_page = get_or q.per_page 0;
  state_ids = [];
  group_ids = [];
  org_id = none;
  query = q.query;
  order_by = q.order_by;
  sort_by = q.sort_by;
}

module _ {S A : Type 0} where
  abbrev pub bad_ticket_id : Handled S A
  bad_ticket_id = respond_error 400 "bad_request" "invalid ticket ID"

  abbrev pub bad_body : Handled S A
  bad_body = respond_error 400 "bad_request" "invalid request body"

  abbrev pub no_zammad : Error → Handled S A
  no_zammad e = respond_error 500 "internal_error" "zammad not configured"

  abbrev pub ticket_failed : String → Error → Handled S A
  ticket_failed message e =
      if is_not_found e
      then respond_error 404 "not_found" "ticket not found"
      else respond_error 500 "internal_error" message

module _ {S : Type 0} (resolve_zammad : Action S (TicketZammad S)) (store : TicketStore S) where
  unfoldable pub handle_get : Option ℕ → Handled S EnrichedTicket
  handle_get param = parsed param bad_ticket_id λ id.
      call resolve_zammad no_zammad
        λ zammad. call (get zammad store id) (ticket_failed "failed to get ticket") (respond 200)

  unfoldable pub handle_list : ListQuery → Handled S (List EnrichedTicket)
  handle_list q = call resolve_zammad no_zammad λ zammad.
      call (list zammad store (list_options q))
        (λ e. respond_error 500 "internal_error" "failed to list tickets") (respond 200)

  abbrev pub create_failed : CreateRequest → String → Error → Handled S EnrichedTicket
  create_failed req email e =
      if req.customer_id == 0 && str_eq email ""
      then respond_error 400 "bad_request" "customer_id is required"
      else respond_error 500 "internal_error" "failed to create ticket"

  unfoldable pub handle_create : Option CreateRequest → Option Identity → Handled S EnrichedTicket
  handle_create body identity = parsed body bad_body λ req.
      if str_eq req.title ""
      then respond_error 400 "bad_request" "title is required"
      else if req.group_id == 0
      then respond_error 400 "bad_request" "group_id is required"
      else call resolve_zammad no_zammad λ zammad.
        call (create zammad store req (caller_email identity))
          (create_failed req (caller_email identity)) (respond 201)

  unfoldable pub handle_update : Option ℕ → Option UpdateRequest → Handled S EnrichedTicket
  handle_update param body = parsed param bad_ticket_id λ id. parsed body bad_body λ req.
      call resolve_zammad no_zammad λ zammad.
        call (update zammad store id req) (ticket_failed "failed to update ticket") (respond 200)

  unfoldable pub handle_delete : Option ℕ → Handled S (Unit {0})
  handle_delete param = parsed param bad_ticket_id λ id. call resolve_zammad no_zammad λ zammad.
      call (delete zammad store id) (ticket_failed "failed to delete ticket") (λ done. no_content)

-- The 409 answer has the URL of the post-mortem that exists.
pub data PostMortemAnswer : Type 0 where
  made : PostMortemResult → PostMortemAnswer
  conflict : String → PostMortemAnswer

abbrev pub post_mortem_failed : {S : Type 0} → Error → Handled S PostMortemAnswer
post_mortem_failed (exists url) = respond 409 (conflict url)
post_mortem_failed e = respond_error 500 "internal_error" "failed to create post-mortem"

module _ {S : Type 0} (resolve_zammad : Action S (TicketZammad S)) where
  unfoldable pub handle_get_suggestions :
      Action S (BookOwlSearcher S) → Option ℕ → Handled S (List Suggestion)
  handle_get_suggestions resolve_bookowl param = parsed param bad_ticket_id λ id.
      call resolve_zammad no_zammad λ zammad.
        call resolve_bookowl (λ e. respond 200 [])
          λ bookowl.
            call (zammad.get_ticket id) (ticket_failed "failed to get ticket")
              λ t. call (get_suggestions bookowl t.title t.tags) (λ e. respond 200 []) (respond 200)

  unfoldable pub handle_create_post_mortem :
      PostMortemStore S
      → (Uuid → String)
      → (String → Option Uuid)
      → Uuid
      → Action S (PostMortemCreator S)
      → Action S (IncidentFetcher S)
      → Option ℕ
      → Option Identity
      → Handled S PostMortemAnswer
  handle_create_post_mortem store id_text parse_uuid new_id resolve_bookowl resolve_nightowl param
        identity =
      parsed param bad_ticket_id λ id. call resolve_zammad no_zammad λ zammad.
        call resolve_bookowl (λ e. respond_error 503 "unavailable" "bookowl not configured")
          λ bookowl.
            call resolve_nightowl (λ e. respond_error 503 "unavailable" "nightowl not configured")
              λ nightowl. call (zammad.get_ticket id) (ticket_failed "failed to get ticket") λ t.
                call
                  (create_post_mortem store bookowl nightowl id_text parse_uuid new_id id t.number
                    t.title (created_by identity))
                  post_mortem_failed (λ r. respond 201 (made r))

pub record MetadataZammad (S : Type 0) : Type 0 where
  pub list_states : Action S (List TicketState)
  pub list_priorities : Action S (List TicketPriority)
  pub list_groups : Action S (List TicketGroup)

pub record TicketMetadata : Type 0 where
  pub states : List TicketState
  pub priorities : List TicketPriority
  pub groups : List TicketGroup

unfoldable pub handle_metadata :
    {S : Type 0} → Action S (MetadataZammad S) → Handled S TicketMetadata
handle_metadata resolve_zammad = call resolve_zammad no_zammad λ zammad.
    call zammad.list_states (λ e. respond_error 500 "internal_error" "failed to list states")
      λ states.
        call zammad.list_priorities
          (λ e. respond_error 500 "internal_error" "failed to list priorities")
          λ priorities.
            call zammad.list_groups
              (λ e. respond_error 500 "internal_error" "failed to list groups")
              λ groups.
                respond 200 (record { states = states; priorities = priorities; groups = groups })
