-- ===== src/Zammad/Endpoints.antt =====
-- internal/zammad: the endpoints of tickets.go, comments.go, users.go, orgs.go, states.go and tester.go.
-- `escape` is `url.QueryEscape`, and the JSON of the types is a parameter.
mod Tests
use ticketowl.Base.{
  ℕ, String, List, [], ◌∷◌, ◌++◌, map, Option, none, some, Action, ◌>>=◌, pure, ltb, str_eq, not,
  if◌then◌else◌, Result, ok, err, failed, ◌==◌, ◌||◌, Bool,
}
use ticketowl.Base.Text.{◌^^◌, itoa}
use ticketowl.Http.Transport.{Transport, decoded, join, encode_values, positive, filled}
use ticketowl.Http.Client.{Reply, no_answer, unreadable, answered, is_success}
use ticketowl.Zammad.Api.{ZammadClient}
use ticketowl.Zammad.Types.{
  Ticket, ListTicketsOptions, TicketCreateRequest, TicketUpdateRequest, Article, ArticleCreate,
  User, TicketState, TicketPriority, TicketGroup,
}

pub record Organisation : Type 0 where
  pub id : ℕ
  pub name : String
  pub active : Bool

-- the payload of CreateUser
pub record NewUser : Type 0 where
  pub email : String
  pub firstname : String
  pub lastname : String
  pub roles : List String

pub record ZammadJson : Type 0 where
  pub ticket : String → Option Ticket
  pub tickets : String → Option (List Ticket)
  pub article : String → Option Article
  pub articles : String → Option (List Article)
  pub user : String → Option User
  pub users : String → Option (List User)
  pub organisation : String → Option Organisation
  pub states : String → Option (List TicketState)
  pub priorities : String → Option (List TicketPriority)
  pub groups : String → Option (List TicketGroup)
  pub ticket_create : TicketCreateRequest → String
  pub ticket_update : TicketUpdateRequest → String
  pub article_create : ArticleCreate → String
  pub new_user : NewUser → String

abbrev pub ids_value : String → List ℕ → List (String × String)
ids_value key [] = []
ids_value key (id ∷ ids) = (key, join "," (map itoa (id ∷ ids))) ∷ []

abbrev pub org_value : Option ℕ → List (String × String)
org_value none = []
org_value (some id) = ("organization_id", itoa id) ∷ []

-- in the order of the keys
abbrev pub list_values : ListTicketsOptions → List (String × String)
list_values opts =
    ("expand", "true")
    ∷ (ids_value "group_id" opts.group_ids
        ++ (filled "order_by" opts.order_by
            ++ (org_value opts.org_id
                ++ (positive "page" opts.page
                    ++ (positive "per_page" opts.per_page
                        ++ (filled "sort_by" opts.sort_by
                            ++ ids_value "state_id" opts.state_ids))))))

abbrev pub build_list_query : (String → String) → ListTicketsOptions → String
build_list_query escape opts = encode_values escape (list_values opts)

abbrev pub first_user : List User → Option User
first_user [] = none
first_user (u ∷ users) = some u

module _ {S : Type 0} (c : Transport S) (json : ZammadJson) (escape : String → String) where
  unfoldable pub list_tickets : ListTicketsOptions → Action S (List Ticket)
  unfolding itoa
  list_tickets opts =
      decoded json.tickets (c.get ("/api/v1/tickets?" ^^ build_list_query escape opts))

  unfoldable pub get_ticket : ℕ → Action S Ticket
  unfolding itoa
  get_ticket id = decoded json.ticket (c.get ("/api/v1/tickets/" ^^ itoa id ^^ "?expand=true"))

  unfoldable pub create_ticket : TicketCreateRequest → Action S Ticket
  create_ticket req = decoded json.ticket (c.post "/api/v1/tickets" (json.ticket_create req))

  unfoldable pub update_ticket : ℕ → TicketUpdateRequest → Action S Ticket
  unfolding itoa
  update_ticket id req =
      decoded json.ticket (c.put ("/api/v1/tickets/" ^^ itoa id) (json.ticket_update req))

  unfoldable pub delete_ticket : ℕ → Action S (Unit {0})
  unfolding itoa
  delete_ticket id = c.delete ("/api/v1/tickets/" ^^ itoa id)

  unfoldable pub search_tickets : String → ListTicketsOptions → Action S (List Ticket)
  unfolding itoa
  search_tickets query opts =
      let params = build_list_query escape opts ^^ "&query=" ^^ escape query in
      decoded json.tickets (c.get ("/api/v1/tickets/search?" ^^ params))

  unfoldable pub list_articles : ℕ → Action S (List Article)
  unfolding itoa
  list_articles ticket_id =
      decoded json.articles
        (c.get ("/api/v1/ticket_articles/by_ticket/" ^^ itoa ticket_id ^^ "?expand=true"))

  unfoldable pub create_article : ArticleCreate → Action S Article
  create_article req =
      decoded json.article (c.post "/api/v1/ticket_articles" (json.article_create req))

  unfoldable pub get_user : ℕ → Action S User
  unfolding itoa
  get_user id = decoded json.user (c.get ("/api/v1/users/" ^^ itoa id ^^ "?expand=true"))

  unfoldable pub get_current_user : Action S User
  get_current_user = decoded json.user (c.get "/api/v1/users/me")

  unfoldable pub create_user : String → String → String → Action S User
  create_user email firstname lastname = decoded json.user (
      c.post "/api/v1/users" (
        json.new_user (record {
          email = email;
          firstname = firstname;
          lastname = lastname;
          roles = "Customer" ∷ [];
        })))

  unfoldable pub search_users_by_email : String → Action S (Option User)
  search_users_by_email email =
      decoded json.users (
        c.get
          ("/api/v1/users/search?query=" ^^ escape ("email:" ^^ email) ^^ "&limit=1&expand=true"))
      >>= λ users. pure (first_user users)

  unfoldable pub get_organisation : ℕ → Action S Organisation
  unfolding itoa
  get_organisation id = decoded json.organisation (c.get ("/api/v1/organizations/" ^^ itoa id))

  unfoldable pub list_states : Action S (List TicketState)
  list_states = decoded json.states (c.get "/api/v1/ticket_states")

  unfoldable pub list_priorities : Action S (List TicketPriority)
  list_priorities = decoded json.priorities (c.get "/api/v1/ticket_priorities")

  unfoldable pub list_groups : Action S (List TicketGroup)
  list_groups = decoded json.groups (c.get "/api/v1/groups")

  -- what the worker calls
  abbrev pub worker_client : ZammadClient S
  worker_client = record {
    create_ticket = create_ticket;
    update_ticket = update_ticket;
    search_users_by_email = search_users_by_email;
  }

-- 401, 403, and every other status that is no success, are errors
abbrev pub status_result : ℕ → Result (Unit {0})
status_result status =
    if status == 401 || status == 403
    then err failed
    else if is_success status
    then ok tt
    else err failed

-- `Tester.TestConnection`, one attempt, on what GET /api/v1/users/me meets; its body is not read
unfoldable pub test_connection : Reply → Result (Unit {0})
test_connection no_answer = err failed
test_connection (unreadable status) = status_result status
test_connection (answered status text) = status_result status
