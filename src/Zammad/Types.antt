-- ===== src/Zammad/Types.antt =====
-- internal/zammad: the types of tickets.go, comments.go, users.go and webhook.go. An id or another
-- Go int that is only compared is a natural number.
use ticketowl.Base.{ℕ, String, Bool, Option, List}
use ticketowl.Sla.Types.{Time}

pub record Ticket : Type 0 where
  pub id : ℕ
  pub number : String
  pub title : String
  pub state_id : ℕ
  pub state : String
  pub priority_id : ℕ
  pub priority : String
  pub group_id : ℕ
  pub group : String
  pub owner_id : ℕ
  pub owner : String
  pub customer_id : ℕ
  pub organisation_id : ℕ
  pub tags : List String
  pub created_at : Time
  pub updated_at : Time
  pub close_at : Option Time

pub record ListTicketsOptions : Type 0 where
  pub page : ℕ
  pub per_page : ℕ
  pub state_ids : List ℕ
  pub group_ids : List ℕ
  pub org_id : Option ℕ
  pub order_by : String
  pub sort_by : String

pub record ArticleCreate : Type 0 where
  pub ticket_id : ℕ
  pub type_id : ℕ
  pub body : String
  pub content_type : String
  pub internal : Bool
  pub sender_id : ℕ

pub record TicketCreateRequest : Type 0 where
  pub title : String
  pub group_id : ℕ
  pub customer_id : ℕ
  pub customer : String
  pub state_id : ℕ
  pub priority_id : ℕ
  pub article : Option ArticleCreate

pub record TicketUpdateRequest : Type 0 where
  pub state_id : Option ℕ
  pub priority_id : Option ℕ
  pub owner_id : Option ℕ
  pub group_id : Option ℕ

pub record Article : Type 0 where
  pub id : ℕ
  pub ticket_id : ℕ
  pub type : String
  pub sender : String
  pub body : String
  pub content_type : String
  pub internal : Bool
  pub created_by : String
  pub created_at : Time

pub record User : Type 0 where
  pub id : ℕ
  pub login : String
  pub firstname : String
  pub lastname : String
  pub email : String
  pub active : Bool
  pub organization : String

pub record WebhookTicket : Type 0 where
  pub id : ℕ
  pub number : String
  pub state_id : ℕ
  pub state : String
  pub priority : String
  pub group : String
  pub updated_at : Time

pub record WebhookPayload : Type 0 where
  pub event : String
  pub ticket : Option WebhookTicket
  pub article : Option Article

pub record TicketState : Type 0 where
  pub id : ℕ
  pub name : String

pub record TicketPriority : Type 0 where
  pub id : ℕ
  pub name : String

pub record TicketGroup : Type 0 where
  pub id : ℕ
  pub name : String
