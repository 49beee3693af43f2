-- ===== src/Ticket/Types.antt =====
-- internal/ticket/ticket.go: the types of the package, and `enrichFromZammad`.
use ticketowl.Base.{ℕ, String, Option, none, some, List}
use ticketowl.Sla.Types.{Time, Uuid}
use ticketowl.Zammad.Types.{Ticket}

pub record Meta : Type 0 where
  pub id : Uuid
  pub zammad_id : ℕ
  pub zammad_number : String
  pub sla_policy_id : Option Uuid
  pub created_at : Time
  pub updated_at : Time

pub record EnrichedTicket : Type 0 where
  pub id : ℕ
  pub number : String
  pub title : String
  pub state : String
  pub state_id : ℕ
  pub priority : String
  pub priority_id : ℕ
  pub group : String
  pub group_id : ℕ
  pub owner : String
  pub owner_id : ℕ
  pub customer_id : ℕ
  pub organisation_id : ℕ
  pub tags : List String
  pub created_at : Time
  pub updated_at : Time
  pub close_at : Option Time
  pub meta_id : Option Uuid
  pub sla_policy_id : Option Uuid

pub record ListOptions : Type 0 where
  pub page : ℕ
  pub per_page : ℕ
  pub state_ids : List ℕ
  pub group_ids : List ℕ
  pub org_id : Option ℕ
  pub query : String
  pub order_by : String
  pub sort_by : String

pub record CreateRequest : Type 0 where
  pub title : String
  pub group_id : ℕ
  pub customer_id : ℕ
  pub state_id : ℕ
  pub priority_id : ℕ
  pub body : String

pub record UpdateRequest : Type 0 where
  pub state_id : Option ℕ
  pub priority_id : Option ℕ
  pub owner_id : Option ℕ
  pub group_id : Option ℕ

abbrev pub meta_id_of : Option Meta → Option Uuid
meta_id_of none = none
meta_id_of (some m) = some m.id

abbrev pub policy_id_of : Option Meta → Option Uuid
policy_id_of none = none
policy_id_of (some m) = m.sla_policy_id

unfoldable pub enrich_from_zammad : Ticket → Option Meta → EnrichedTicket
enrich_from_zammad t meta = record {
  id = t.id;
  number = t.number;
  title = t.title;
  state = t.state;
  state_id = t.state_id;
  priority = t.priority;
  priority_id = t.priority_id;
  group = t.group;
  group_id = t.group_id;
  owner = t.owner;
  owner_id = t.owner_id;
  customer_id = t.customer_id;
  organisation_id = t.organisation_id;
  tags = t.tags;
  created_at = t.created_at;
  updated_at = t.updated_at;
  close_at = t.close_at;
  meta_id = meta_id_of meta;
  sla_policy_id = policy_id_of meta;
}
