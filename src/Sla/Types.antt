-- ===== src/Sla/Types.antt =====
-- internal/sla/sla.go: the types of the package.
use ticketowl.Base.{ℕ, String, Bool, Option}
use ticketowl.Base.Int.{ℤ}

-- A point of time in nanoseconds; a duration is a `ℤ` too.
abbrev pub Time : Type 0
Time = ℤ

abbrev pub Uuid : Type 0
Uuid = ℕ

pub data StateLabel : Type 0 where
  on_track warning breached met : StateLabel

pub record Policy : Type 0 where
  pub id : Uuid
  pub name : String
  pub priority : String
  pub response_minutes : ℤ
  pub resolution_minutes : ℤ
  -- in thousandths, as the column NUMERIC(4,3) holds it
  pub warning_threshold : ℤ
  pub is_default : Bool
  pub created_at : Time
  pub updated_at : Time

pub record State : Type 0 where
  pub id : Uuid
  pub ticket_meta_id : Uuid
  pub response_due_at : Option Time
  pub resolution_due_at : Option Time
  pub response_met_at : Option Time
  pub first_breach_alerted_at : Option Time
  pub label : StateLabel
  pub paused : Bool
  pub paused_at : Option Time
  pub accumulated_pause_secs : ℤ
  pub updated_at : Time

pub record ComputeInput : Type 0 where
  pub response_minutes : ℤ
  pub resolution_minutes : ℤ
  pub warning_threshold : ℤ
  pub ticket_created_at : Time
  pub response_met_at : Option Time
  pub accumulated_pause : ℤ
  pub paused : Bool
  pub now : Time

pub record ComputeResult : Type 0 where
  pub label : StateLabel
  pub response_due_at : Time
  pub resolution_due_at : Time
  pub response_seconds_remaining : ℤ
  pub resolution_seconds_remaining : ℤ
  pub paused : Bool

pub record CreatePolicyRequest : Type 0 where
  pub name : String
  pub priority : String
  pub response_minutes : ℤ
  pub resolution_minutes : ℤ
  pub warning_threshold : ℤ
  pub is_default : Bool

pub record UpdatePolicyRequest : Type 0 where
  pub name : Option String
  pub response_minutes : Option ℤ
  pub resolution_minutes : Option ℤ
  pub warning_threshold : Option ℤ
  pub is_default : Option Bool
