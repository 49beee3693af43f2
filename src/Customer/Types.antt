-- ===== src/Customer/Types.antt =====
-- internal/customer/customer.go: the data of the portal and its two interfaces, against a state `S`.
use ticketowl.Sla.Types.{Uuid, Time, StateLabel, State}
use ticketowl.Base.{ℕ, List, String, Option, Action}
use ticketowl.Zammad.Types.{ListTicketsOptions, Ticket, Article, ArticleCreate}
use ticketowl.Link.Types.{ArticleLink}

pub record Org : Type 0 where
  pub id : Uuid
  pub name : String
  pub oidc_group : String
  pub zammad_org_id : Option ℕ
  pub created_at : Time
  pub updated_at : Time

pub record PortalTicket : Type 0 where
  pub id : ℕ
  pub number : String
  pub title : String
  pub status : String
  pub priority : String
  pub sla_state : Option StateLabel
  pub created_at : Time
  pub updated_at : Time

pub record PortalComment : Type 0 where
  pub id : ℕ
  pub body : String
  pub sender : String
  pub created_by : String
  pub created_at : Time

pub record PortalArticle : Type 0 where
  pub id : Uuid
  pub slug : String
  pub title : String

pub record PortalTicketDetail : Type 0 where
  pub ticket : PortalTicket
  pub comments : List PortalComment
  pub linked_articles : List PortalArticle
  pub response_due_at : Option Time
  pub resolution_due_at : Option Time

pub record CustomerStore (S : Type 0) : Type 0 where
  pub get_org : Uuid → Action S Org
  pub get_ticket_meta_id : ℕ → Action S Uuid
  pub list_article_links : Uuid → Action S (List ArticleLink)
  pub get_sla_state : Uuid → Action S State

pub record PortalZammad (S : Type 0) : Type 0 where
  pub list_tickets : ListTicketsOptions → Action S (List Ticket)
  pub get_ticket : ℕ → Action S Ticket
  pub list_articles : ℕ → Action S (List Article)
  pub create_article : ArticleCreate → Action S Article
