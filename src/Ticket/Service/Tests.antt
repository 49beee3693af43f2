-- ===== src/Ticket/Service/Tests.antt =====
-- Runs of internal/ticket/service.go.
use ticketowl.Ticket.Types.{ListOptions, CreateRequest, EnrichedTicket, enrich_from_zammad}
use ticketowl.Ticket.Service.{
  TicketZammad, TicketStore, to_option, zammad_request, fetch, list, enrich_all, customer_for,
  create_for, record_ticket, create,
}
use ticketowl.Ticket.Service.Laws.{
  metas_for, CustomerOf, EachShown, list_shows_each, create_makes_ticket, retry_panics,
}
use ticketowl.Db.Sample.{sample_meta}
use ticketowl.Base.{
  ℕ, String, [], List, ◌≡◌, true, Action, pure, raise, none, ◌∷◌, ok, err, Option, api, no_rows,
  refl, panicked, ◌≢◌, if◌then◌else◌, failed, ◌==◌, some, suc, Error,
}
use ticketowl.Zammad.Types.{User, Ticket}
use ticketowl.Base.Int.{pos}

abbrev ticket : ℕ → Ticket
ticket id = record {
  id = id;
  number = "10041";
  title = "disk full";
  state_id = 2;
  state = "open";
  priority_id = 2;
  priority = "2 normal";
  group_id = 1;
  group = "Support";
  owner_id = 1;
  owner = "-";
  customer_id = 5;
  organisation_id = 9;
  tags = [];
  created_at = pos 0;
  updated_at = pos 0;
  close_at = none;
}

abbrev user : User
user = record {
  id = 5;
  login = "c";
  firstname = "";
  lastname = "";
  email = "c@example";
  active = true;
  organization = "";
}

-- The state counts the searches for a user; the second one finds it.
abbrev search : String → Action ℕ (Option User)
search email n = (ok (if n == 0 then none else some user), suc n)

abbrev zammad : TicketZammad ℕ
zammad = record {
  get_ticket = λ id. pure (ticket id);
  list_tickets = λ opts. pure (ticket 41 ∷ ticket 42 ∷ []);
  search_tickets = λ text opts. pure [];
  create_ticket = λ req. pure (ticket 50);
  update_ticket = λ id req. pure (ticket id);
  delete_ticket = λ id. pure tt;
  search_users_by_email = search;
  create_user = λ email first last. raise (api 422);
}

abbrev store : TicketStore ℕ
store = record {
  get_by_zammad_id = λ id. raise no_rows;
  upsert = λ id number policy. raise failed;
  list_by_zammad_ids = λ ids. pure (sample_meta ∷ []);
}

abbrev options : ListOptions
options = record {
  page = 1;
  per_page = 20;
  state_ids = [];
  group_ids = [];
  org_id = none;
  query = "";
  order_by = "";
  sort_by = "";
}

list_shows_each_example :
    ((tickets : List Ticket) (s1 : ℕ)
      → fetch zammad store options 0 ≡ (ok tickets, s1)
      → (shown : List EnrichedTicket) × ((list zammad store options 0).0 ≡ ok shown)
        × EachShown (metas_for zammad store tickets s1) tickets shown)
    × ((failure : Error) (s1 : ℕ)
        → fetch zammad store options 0 ≡ (err failure, s1)
        → list zammad store options 0 ≡ (err failure, s1))
list_shows_each_example = list_shows_each zammad store options 0

-- a failing metadata query leaves the two tickets without metadata
lists_without_metadata :
    (list zammad (record store { list_by_zammad_ids = λ ids. raise failed }) options 0).0
    ≡ ok (enrich_all [] (ticket 41 ∷ ticket 42 ∷ []))
unfolding list fetch
lists_without_metadata = refl

abbrev request : ℕ → CreateRequest
request customer = record {
  title = "disk full";
  group_id = 1;
  customer_id = customer;
  state_id = 1;
  priority_id = 2;
  body = "";
}

retry_panics_example : create zammad store (request 0) "c@example" 0 ≡ (err panicked, 2)
retry_panics_example =
    retry_panics zammad store (request 0) "c@example" user (api 422) 0 1 1 2 refl refl refl refl
      refl

creates : (create zammad store (request 5) "" 0).0 ≡ ok (enrich_from_zammad (ticket 50) none)
unfolding create customer_for create_for record_ticket
creates = refl

create_makes_ticket_example :
    (customer : ℕ) × (t : Ticket) × (s1 : ℕ) × (s2 : ℕ) × CustomerOf zammad store
      (request 5)
      ""
      0
      customer
      s1
    × (customer ≢ 0)
    × (zammad.create_ticket (zammad_request (request 5) customer) s1 ≡ (ok t, s2))
    × (enrich_from_zammad (ticket 50) none
        ≡ enrich_from_zammad t (to_option (store.upsert t.id t.number none s2).0))
    × ((create zammad store (request 5) "" 0).1 ≡ (store.upsert t.id t.number none s2).1)
create_makes_ticket_example =
    create_makes_ticket zammad store (request 5) "" 0 (enrich_from_zammad (ticket 50) none) creates
