-- ===== src/NightOwl/Types.antt =====
-- internal/nightowl: the types of alerts.go, incidents.go and oncall.go. The labels and the
-- annotations of an alert are association lists.
use ticketowl.Base.{String, Option, List}
use ticketowl.Sla.Types.{Time}

pub record CreateAlertRequest : Type 0 where
  pub name : String
  pub summary : String
  pub severity : String
  pub labels : List (String × String)
  pub annotations : List (String × String)

pub record Alert : Type 0 where
  pub id : String
  pub name : String
  pub severity : String
  pub status : String

pub record Incident : Type 0 where
  pub id : String
  pub slug : String
  pub summary : String
  pub severity : String
  pub status : String
  pub service : String
  pub tags : List String
  pub created_at : Time
  pub resolved_at : Option Time

pub record OnCallInfo : Type 0 where
  pub user_name : String
  pub user_email : String
  pub shift_end : Time
