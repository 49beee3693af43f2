-- ===== src/Customer/Service.antt =====
-- internal/customer/service.go: what a customer sees, and the replies.
pub mod Laws
pub mod Shown
mod Tests
use ticketowl.Zammad.Types.{Ticket, Article, ListTicketsOptions, ArticleCreate}
use ticketowl.Link.Types.{ArticleLink}
use ticketowl.Base.{
  List, ℕ, Option, Result, ok, String, Action, none, ◌∷◌, err, [], raise, if◌then◌else◌, ◌>>=◌,
  attempt, ◌>>◌, not, false, some, panicked, is_some, pure, is_no_rows, ◌==◌, failed, map,
  forbidden,
}
use ticketowl.Customer.Types.{
  Org, CustomerStore, PortalTicket, PortalComment, PortalArticle, PortalZammad, PortalTicketDetail,
}
use ticketowl.Sla.Types.{State, Uuid}

abbrev pub portal_ticket_from_zammad : Ticket → PortalTicket
portal_ticket_from_zammad t = record {
  id = t.id;
  number = t.number;
  title = t.title;
  status = t.state;
  priority = t.priority;
  sla_state = none;
  created_at = t.created_at;
  updated_at = t.updated_at;
}

abbrev pub portal_comment : Article → PortalComment
portal_comment a = record {
  id = a.id;
  body = a.body;
  sender = a.sender;
  created_by = a.created_by;
  created_at = a.created_at;
}

abbrev pub portal_article : ArticleLink → PortalArticle
portal_article l = record { id = l.article_id; slug = l.article_slug; title = l.article_title }

-- an internal article is left out
unfoldable pub public_comments : List Article → List PortalComment
public_comments [] = []
public_comments (a ∷ articles) =
    let rest = public_comments articles in if not a.internal then portal_comment a ∷ rest else rest

abbrev pub or_empty : {A B : Type 0} → (A → List B) → Result A → List B
or_empty f (ok a) = f a
or_empty f (err e) = []

abbrev pub reply_request : ℕ → String → ArticleCreate
reply_request zammad_id body = record {
  ticket_id = zammad_id;
  type_id = 0;
  body = body;
  content_type = "text/plain";
  internal = false;
  sender_id = 0;
}

abbrev pub of_org : Option ℕ → ListTicketsOptions
of_org org = record {
  page = 0;
  per_page = 0;
  state_ids = [];
  group_ids = [];
  org_id = org;
  order_by = "";
  sort_by = "";
}

abbrev pub with_sla : Result State → PortalTicketDetail → PortalTicketDetail
with_sla (err e) detail = detail
with_sla (ok s) detail = record detail {
  ticket = record (detail.ticket) { sla_state = some s.label };
  response_due_at = s.response_due_at;
  resolution_due_at = s.resolution_due_at;
}

abbrev pub bare_detail : Ticket → Result (List Article) → PortalTicketDetail
bare_detail t articles = record {
  ticket = portal_ticket_from_zammad t;
  comments = or_empty public_comments articles;
  linked_articles = [];
  response_due_at = none;
  resolution_due_at = none;
}

module _ {S : Type 0} where
  -- the ticket's organisation is the customer's; without an organisation `*org.ZammadOrgID` panics
  abbrev pub check_org : Option ℕ → Ticket → Action S Ticket
  check_org none t = raise panicked
  check_org (some org) t = if not (t.organisation_id == org) then raise forbidden else pure t

  abbrev pub require_zammad_org : Org → Action S Org
  require_zammad_org org = if is_some org.zammad_org_id then pure org else raise failed

module _ {S : Type 0} (store : CustomerStore S) (zammad : PortalZammad S) where
  unfoldable pub resolve_org : Uuid → Action S Org
  resolve_org org_id = store.get_org org_id >>= require_zammad_org

  abbrev pub ticket_of : ℕ → Org → Action S Ticket
  ticket_of zammad_id org = zammad.get_ticket zammad_id >>= check_org org.zammad_org_id

  -- The checks with which GetMyTicket, GetLinkedArticles and AddReply begin.
  unfoldable pub own_ticket : Uuid → ℕ → Action S Ticket
  own_ticket org_id zammad_id = resolve_org org_id >>= ticket_of zammad_id

  unfoldable pub list_my_tickets : Uuid → Action S (List PortalTicket)
  list_my_tickets org_id = do
    org ← resolve_org org_id
    tickets ← zammad.list_tickets (of_org org.zammad_org_id)
    pure (map portal_ticket_from_zammad tickets)

  unfoldable pub enrich_detail : PortalTicketDetail → Uuid → Action S PortalTicketDetail
  enrich_detail detail meta_id = do
    links ← attempt (store.list_article_links meta_id)
    state ← attempt (store.get_sla_state meta_id)
    pure (with_sla state (record detail { linked_articles = or_empty (map portal_article) links }))

  abbrev pub enrich_if : PortalTicketDetail → Result Uuid → Action S PortalTicketDetail
  enrich_if detail (err e) = pure detail
  enrich_if detail (ok meta_id) = enrich_detail detail meta_id

  -- a failing list of articles or metadata is logged
  unfoldable pub load_detail : ℕ → Ticket → Action S PortalTicketDetail
  load_detail zammad_id t = do
    articles ← attempt (zammad.list_articles zammad_id)
    meta ← attempt (store.get_ticket_meta_id zammad_id)
    enrich_if (bare_detail t articles) meta

  unfoldable pub get_my_ticket : Uuid → ℕ → Action S PortalTicketDetail
  get_my_ticket org_id zammad_id = own_ticket org_id zammad_id >>= load_detail zammad_id

  abbrev pub articles_of : Result Uuid → Action S (List PortalArticle)
  articles_of (err e) = if is_no_rows e then pure [] else raise e
  articles_of (ok meta_id) = do
    links ← store.list_article_links meta_id
    pure (map portal_article links)

  unfoldable pub load_articles : ℕ → Ticket → Action S (List PortalArticle)
  load_articles zammad_id t = attempt (store.get_ticket_meta_id zammad_id) >>= articles_of

  unfoldable pub get_linked_articles : Uuid → ℕ → Action S (List PortalArticle)
  get_linked_articles org_id zammad_id = own_ticket org_id zammad_id >>= load_articles zammad_id

  unfoldable pub send_reply : ℕ → String → Ticket → Action S (Unit {0})
  send_reply zammad_id body t = do zammad.create_article (reply_request zammad_id body); pure tt

  unfoldable pub add_reply : Uuid → ℕ → String → Action S (Unit {0})
  add_reply org_id zammad_id body = own_ticket org_id zammad_id >>= send_reply zammad_id body
