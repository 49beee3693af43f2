-- ===== src/Ticket/Handler/Tests.antt =====
-- The examples of internal/ticket/handler.go.
use ticketowl.Http.Client.{is_not_found}
use ticketowl.Base.{ℕ, some, none, raise, failed, no_rows, refl, ◌≡◌, pure, [], api}
use ticketowl.Ticket.Types.{CreateRequest}
use ticketowl.Ticket.Service.{
  find_user, TicketZammad, TicketStore, get, create, customer_for, create_for, find_customer,
}
use ticketowl.Ticket.Handler.{handle_get, handle_create, handle_get_suggestions}

abbrev missing : TicketZammad ℕ
missing = record {
  get_ticket = λ id. raise (api 404);
  list_tickets = λ opts. raise failed;
  search_tickets = λ q opts. raise failed;
  create_ticket = λ req. raise failed;
  update_ticket = λ id req. raise (api 404);
  delete_ticket = λ id. raise (api 404);
  search_users_by_email = λ email. pure none;
  create_user = λ email first last. raise failed;
}

abbrev no_meta : TicketStore ℕ
no_meta = record {
  get_by_zammad_id = λ id. raise no_rows;
  upsert = λ id number policy. raise failed;
  list_by_zammad_ids = λ ids. pure [];
}

abbrev untitled : CreateRequest
untitled = record {
  title = "disk full";
  group_id = 1;
  customer_id = 0;
  state_id = 0;
  priority_id = 0;
  body = "";
}

get_missing_404 : (handle_get (pure missing) no_meta (some 41) 0).0.status ≡ 404
unfolding handle_get get is_not_found
get_missing_404 = refl

-- Without a customer and without a caller's address the request is at fault, otherwise the server.
create_without_customer :
    ((handle_create (pure missing) no_meta (some untitled) none 0).0.status ≡ 400)
    × ((handle_create
          (pure missing)
          no_meta
          (some untitled)
          (some (record { email = "a@b"; user_id = none }))
          0).0.status
        ≡ 500)
unfolding handle_create create customer_for create_for find_customer find_user
create_without_customer = (refl, refl)

no_bookowl_no_suggestions :
    (handle_get_suggestions (pure missing) (raise no_rows) (some 41) 0).0.status ≡ 200
unfolding handle_get_suggestions
no_bookowl_no_suggestions = refl
