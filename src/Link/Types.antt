-- ===== src/Link/Types.antt =====
-- internal/link/link.go: the links of a ticket.
use ticketowl.Base.{String, Option, List}
use ticketowl.Sla.Types.{Time, Uuid}

pub record IncidentLink : Type 0 where
  pub id : Uuid
  pub ticket_meta_id : Uuid
  pub incident_id : Uuid
  pub incident_slug : String
  pub linked_by : Uuid
  pub created_at : Time

pub record ArticleLink : Type 0 where
  pub id : Uuid
  pub ticket_meta_id : Uuid
  pub article_id : Uuid
  pub article_slug : String
  pub article_title : String
  pub linked_by : Uuid
  pub created_at : Time

pub record PostMortemLink : Type 0 where
  pub id : Uuid
  pub ticket_meta_id : Uuid
  pub postmortem_id : Uuid
  pub postmortem_url : String
  pub created_by : Uuid
  pub created_at : Time

pub record TicketLinks : Type 0 where
  pub incidents : List IncidentLink
  pub articles : List ArticleLink
  pub postmortem : Option PostMortemLink
