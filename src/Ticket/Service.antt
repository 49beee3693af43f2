-- ===== src/Ticket/Service.antt =====
-- internal/ticket/service.go: the tickets of Zammad with the metadata of the tenant's database. A
-- metadata query whose error is only logged gives no metadata.
pub mod Laws
mod Tests
use ticketowl.Ticket.Types.{
  ListOptions, CreateRequest, UpdateRequest, EnrichedTicket, Meta, enrich_from_zammad,
}
use ticketowl.Base.{
  ℕ, Result, String, List, Action, Error, Option, if◌then◌else◌, map, ok, ◌>>=◌, pure, some, str_eq,
  none, err, attempt, not, ◌∷◌, ◌==◌, [], false, is_no_rows, raise, ◌&&◌, panicked, invalid,
}
use ticketowl.Zammad.Types.{
  ListTicketsOptions, Ticket, TicketCreateRequest, User, TicketUpdateRequest, ArticleCreate,
}
use ticketowl.Sla.Types.{Uuid}

pub record TicketZammad (S : Type 0) : Type 0 where
  pub get_ticket : ℕ → Action S Ticket
  pub list_tickets : ListTicketsOptions → Action S (List Ticket)
  pub search_tickets : String → ListTicketsOptions → Action S (List Ticket)
  pub create_ticket : TicketCreateRequest → Action S Ticket
  pub update_ticket : ℕ → TicketUpdateRequest → Action S Ticket
  pub delete_ticket : ℕ → Action S (Unit {0})
  pub search_users_by_email : String → Action S (Option User)
  pub create_user : String → String → String → Action S User

pub record TicketStore (S : Type 0) : Type 0 where
  pub get_by_zammad_id : ℕ → Action S Meta
  pub upsert : ℕ → String → Option Uuid → Action S Meta
  pub list_by_zammad_ids : List ℕ → Action S (List Meta)

abbrev pub to_option : {A : Type 0} → Result A → Option A
to_option (ok a) = some a
to_option (err e) = none

abbrev pub or_default : String → String → String
or_default text d = if str_eq text "" then d else text

abbrev pub zammad_options : ListOptions → ListTicketsOptions
zammad_options opts = record {
  page = opts.page;
  per_page = opts.per_page;
  state_ids = opts.state_ids;
  group_ids = opts.group_ids;
  org_id = opts.org_id;
  order_by = or_default opts.order_by "created_at";
  sort_by = or_default opts.sort_by "desc";
}

-- `metaByZammadID[id]`: a later row replaces an earlier one
abbrev pub meta_of : ℕ → List Meta → Option Meta
meta_of id [] = none
meta_of id (m ∷ metas) = elim (meta_of id metas) [
  | some x ↦ some x
  | none ↦ if m.zammad_id == id then some m else none
]

abbrev pub enrich_all : List Meta → List Ticket → List EnrichedTicket
enrich_all metas tickets = map (λ t. enrich_from_zammad t (meta_of t.id metas)) tickets

abbrev pub or_no_rows : Result (List Meta) → List Meta
or_no_rows (ok metas) = metas
or_no_rows (err e) = []

abbrev pub article_of : String → Option ArticleCreate
article_of body =
    if str_eq body ""
    then none
    else some (record {
      ticket_id = 0;
      type_id = 0;
      body = body;
      content_type = "text/html";
      internal = false;
      sender_id = 0;
    })

abbrev pub zammad_request : CreateRequest → ℕ → TicketCreateRequest
zammad_request req customer = record {
  title = req.title;
  group_id = req.group_id;
  customer_id = customer;
  customer = "";
  state_id = req.state_id;
  priority_id = req.priority_id;
  article = article_of req.body;
}

module _ {S : Type 0} (zammad : TicketZammad S) (store : TicketStore S) where
  -- only a missing row is no error
  abbrev pub enrich_loaded : Ticket → Result Meta → Action S EnrichedTicket
  enrich_loaded t (ok m) = pure (enrich_from_zammad t (some m))
  enrich_loaded t (err e) = if is_no_rows e then pure (enrich_from_zammad t none) else raise e

  unfoldable pub get : ℕ → Action S EnrichedTicket
  get zammad_id = do
    t ← zammad.get_ticket zammad_id
    meta ← attempt (store.get_by_zammad_id zammad_id)
    enrich_loaded t meta

  unfoldable pub fetch : ListOptions → Action S (List Ticket)
  fetch opts =
      if not (str_eq opts.query "")
      then zammad.search_tickets opts.query (zammad_options opts)
      else zammad.list_tickets (zammad_options opts)

  abbrev pub enrich_listed : List Ticket → Action S (List EnrichedTicket)
  enrich_listed [] = pure []
  enrich_listed (t ∷ tickets) = do
    metas ← attempt (store.list_by_zammad_ids (map (λ (x : Ticket). x.id) (t ∷ tickets)))
    pure (enrich_all (or_no_rows metas) (t ∷ tickets))

  unfoldable pub list : ListOptions → Action S (List EnrichedTicket)
  list opts = fetch opts >>= enrich_listed

  -- `user.ID`, which panics for nil
  abbrev pub user_id : Option User → Action S ℕ
  user_id none = raise panicked
  user_id (some u) = pure u.id

  -- The retried search declares a `user` of its own: the `outer` one is what it was.
  abbrev pub after_retry : Option User → Error → Result (Option User) → Action S (Option User)
  after_retry outer e (err e') = raise e
  after_retry outer e (ok none) = raise e
  after_retry outer e (ok (some user)) = pure outer

  -- a failing CreateUser gives a nil user
  abbrev pub after_create_user : String → Result User → Action S (Option User)
  after_create_user email (ok u) = pure (some u)
  after_create_user email (err e) =
      attempt (zammad.search_users_by_email email) >>= after_retry none e

  abbrev pub after_search : String → Option User → Action S (Option User)
  after_search email (some u) = pure (some u)
  after_search email none = attempt (zammad.create_user email "" "") >>= after_create_user email

  unfoldable pub find_user : String → Action S (Option User)
  find_user email = zammad.search_users_by_email email >>= after_search email

  unfoldable pub find_customer : String → Action S ℕ
  find_customer email = find_user email >>= user_id

  unfoldable pub customer_for : CreateRequest → String → Action S ℕ
  customer_for req caller_email =
      if req.customer_id == 0 && not (str_eq caller_email "")
      then find_customer caller_email
      else pure req.customer_id

  unfoldable pub record_ticket : Ticket → Action S EnrichedTicket
  record_ticket t = do
    meta ← attempt (store.upsert t.id t.number none)
    pure (enrich_from_zammad t (to_option meta))

  unfoldable pub create_for : CreateRequest → ℕ → Action S EnrichedTicket
  create_for req customer =
      if customer == 0
      then raise invalid
      else zammad.create_ticket (zammad_request req customer) >>= record_ticket

  unfoldable pub create : CreateRequest → String → Action S EnrichedTicket
  create req caller_email = customer_for req caller_email >>= create_for req

  unfoldable pub delete : ℕ → Action S (Unit {0})
  delete zammad_id = zammad.delete_ticket zammad_id

  unfoldable pub update : ℕ → UpdateRequest → Action S EnrichedTicket
  update zammad_id req = do
    t ← zammad.update_ticket zammad_id (record {
      state_id = req.state_id;
      priority_id = req.priority_id;
      owner_id = req.owner_id;
      group_id = req.group_id;
    })
    meta ← attempt (store.get_by_zammad_id zammad_id)
    pure (enrich_from_zammad t (to_option meta))
