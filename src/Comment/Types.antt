-- ===== src/Comment/Types.antt =====
-- internal/comment/comment.go: internal notes and the entries of a thread.
use ticketowl.Base.{String, Bool}
use ticketowl.Sla.Types.{Time, Uuid}

pub record InternalNote : Type 0 where
  pub id : Uuid
  pub ticket_meta_id : Uuid
  pub author_id : Uuid
  pub author_name : String
  pub body : String
  pub created_at : Time
  pub updated_at : Time

pub record ThreadEntry : Type 0 where
  pub id : String
  pub source : String
  pub type : String
  pub sender : String
  pub body : String
  pub internal : Bool
  pub created_by : String
  pub created_at : Time

pub record AddNoteRequest : Type 0 where
  pub body : String

pub record AddReplyRequest : Type 0 where
  pub body : String
  pub content_type : String
