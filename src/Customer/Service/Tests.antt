-- ===== src/Customer/Service/Tests.antt =====
-- Runs of internal/customer/service.go.
use ticketowl.Customer.Types.{Org, CustomerStore, PortalZammad, PortalTicketDetail}
use ticketowl.Customer.Service.{
  own_ticket, get_my_ticket, get_linked_articles, add_reply, bare_detail, portal_comment, or_empty,
  resolve_org, load_detail,
}
use ticketowl.Customer.Service.Laws.{IsOwned, foreign_ticket_refused}
use ticketowl.Customer.Service.Shown.{Enriches, shown_ticket-IsOwned}
use ticketowl.Base.{
  List, some, if◌then◌else◌, ℕ, Bool, pure, ◌≢◌, [], ok, ◌==◌, arith, ◌≡◌, true, Result, raise,
  none, ◌∷◌, err, refl, map, no_rows, false, forbidden, filter, ◌++◌, not,
}
use ticketowl.Zammad.Types.{Ticket, ArticleCreate, Article}
use ticketowl.Base.Int.{pos}

-- The state is the list of the replies that Zammad has.
abbrev Replies : Type 0
Replies = List ArticleCreate

abbrev acme : Org
acme = record {
  id = 1;
  name = "Acme";
  oidc_group = "acme";
  zammad_org_id = some 9;
  created_at = pos 0;
  updated_at = pos 0;
}

abbrev store : CustomerStore Replies
store = record {
  get_org = λ id. if id == 1 then pure acme else raise no_rows;
  get_ticket_meta_id = λ id. raise no_rows;
  list_article_links = λ id. pure [];
  get_sla_state = λ id. raise no_rows;
}

abbrev ticket : ℕ → Ticket
ticket org = record {
  id = 41;
  number = "10041";
  title = "disk full";
  state_id = 2;
  state = "open";
  priority_id = 2;
  priority = "2 normal";
  group_id = 1;
  group = "Support";
  owner_id = 1;
  owner = "-";
  customer_id = 5;
  organisation_id = org;
  tags = [];
  created_at = pos 0;
  updated_at = pos 0;
  close_at = none;
}

abbrev article : Bool → Article
article internal = record {
  id = 3;
  ticket_id = 41;
  type = "note";
  sender = "Agent";
  body = "looking into it";
  content_type = "text/plain";
  internal = internal;
  created_by = "agent@example";
  created_at = pos 0;
}

-- ticket 41 is of the organisation 9, every other one of 8
abbrev zammad : PortalZammad Replies
zammad = record {
  list_tickets = λ opts. pure [];
  get_ticket = λ id. pure (ticket (if id == 41 then 9 else 8));
  list_articles = λ id. pure (article true ∷ article false ∷ []);
  create_article = λ req s. (ok (article false), s ++ req ∷ []);
}

foreign : (ticket 8).organisation_id ≢ 9
foreign h = ground (arith, h)

foreign_ticket_refused_example :
    (get_my_ticket store zammad 1 40 [] ≡ (err forbidden, []))
    × (get_linked_articles store zammad 1 40 [] ≡ (err forbidden, []))
    × (add_reply store zammad 1 40 "hello" [] ≡ (err forbidden, []))
foreign_ticket_refused_example =
    foreign_ticket_refused store zammad 1 40 [] [] [] acme 9 (ticket 8) "hello" refl refl refl
      foreign

abbrev shown : PortalTicketDetail
shown = bare_detail (ticket 9) (ok (article true ∷ article false ∷ []))

shows : (get_my_ticket store zammad 1 41 []).0 ≡ ok shown
unfolding get_my_ticket own_ticket resolve_org load_detail
shows = refl

shown_ticket-IsOwned_example :
    (t : Ticket) × (articles : Result (List Article)) × IsOwned store zammad 1 41 [] t
    × (shown.comments
        ≡ or_empty (λ xs. map portal_comment (filter (λ a. not a.internal) xs)) articles)
    × Enriches (bare_detail t articles) shown
    × (articles ≡ (zammad.list_articles 41 (own_ticket store zammad 1 41 []).1).0)
shown_ticket-IsOwned_example = shown_ticket-IsOwned store zammad 1 41 [] shown shows
