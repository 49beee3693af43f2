-- ===== src/Customer/Handler/Tests.antt =====
-- The examples of internal/customer/handler.go; the remote state is the list of the replies.
use ticketowl.Base.{
  String, List, [], ◌∷◌, ◌++◌, some, none, ok, pure, refl, ◌≡◌, false, arith, Option,
}
use ticketowl.Base.Int.{pos}
use ticketowl.Db.{Db}
use ticketowl.Db.Sample.{empty_db, sample_config}
use ticketowl.Zammad.Types.{Ticket, Article, ArticleCreate}
use ticketowl.Customer.Types.{PortalZammad}
use ticketowl.Customer.Handler.{
  Identity, ReplyRequest, handle_get_ticket, handle_get_articles, handle_reply, handle_list_tickets,
}
use ticketowl.Customer.Handler.Laws.{resolve_beside, store_beside, foreign_ticket_forbidden}
use ticketowl.Admin.Types.{CustomerOrg}
use ticketowl.Http.Respond.{respond_error}

abbrev Replies : Type 0
Replies = List ArticleCreate

abbrev ticket_of_8 : Ticket
ticket_of_8 = record {
  id = 42;
  number = "10042";
  title = "disk full";
  state_id = 2;
  state = "open";
  priority_id = 2;
  priority = "2 normal";
  group_id = 1;
  group = "Support";
  owner_id = 1;
  owner = "-";
  customer_id = 5;
  organisation_id = 8;
  tags = [];
  created_at = pos 0;
  updated_at = pos 0;
  close_at = none;
}

abbrev article : Article
article = record {
  id = 3;
  ticket_id = 42;
  type = "note";
  sender = "Agent";
  body = "looking into it";
  content_type = "text/plain";
  internal = false;
  created_by = "agent@example";
  created_at = pos 0;
}

abbrev make : String → String → PortalZammad Replies
make url token = record {
  list_tickets = λ opts. pure [];
  get_ticket = λ id. pure ticket_of_8;
  list_articles = λ id. pure [];
  create_article = λ req s. (ok article, s ++ req ∷ []);
}

abbrev acme : CustomerOrg
acme = record {
  id = 1;
  name = "Acme";
  oidc_group = "acme";
  zammad_org_id = some 9;
  created_at = pos 0;
  updated_at = pos 0;
}

abbrev portal_db : Db
portal_db = record empty_db { zammad_config = sample_config ∷ []; customer_orgs = acme ∷ [] }

abbrev caller : Option Identity
caller = some (record { org_id = some 1 })

abbrev reply_body : ReplyRequest
reply_body = record { body = "any news?" }

abbrev after_refusal : Db × Replies
after_refusal = (record portal_db { queries = 2 }, [])

foreign_ticket_forbidden_example :
    (handle_get_ticket (resolve_beside make) (store_beside Replies) caller (some 42) (portal_db, [])
      ≡ respond_error 403 "forbidden" "ticket not accessible" after_refusal)
    × (handle_get_articles
          (resolve_beside make)
          (store_beside Replies)
          caller
          (some 42)
          (portal_db, [])
        ≡ respond_error 403 "forbidden" "ticket not accessible" after_refusal)
    × (handle_reply
          (resolve_beside make)
          (store_beside Replies)
          caller
          (some 42)
          (some reply_body)
          (portal_db, [])
        ≡ respond_error 403 "forbidden" "ticket not accessible" after_refusal)
foreign_ticket_forbidden_example =
    foreign_ticket_forbidden make portal_db [] [] sample_config 1 acme 9 42 ticket_of_8 reply_body
      (λ k. refl) refl refl refl refl (λ e. absurd (omega (arith, e))) refl

no_org_forbidden :
    handle_list_tickets
      (resolve_beside make)
      (store_beside Replies)
      (some (record { org_id = none }))
      (portal_db, [])
    ≡ respond_error 403 "forbidden" "customer org_id required" (portal_db, [])
unfolding handle_list_tickets
no_org_forbidden = refl
