-- ===== src/Admin/Types.antt =====
-- internal/admin/admin.go: the configuration of a tenant.
use ticketowl.Base.{ℕ, String, Bool, Option, List}
use ticketowl.Sla.Types.{Time, Uuid}

pub record ZammadConfig : Type 0 where
  pub id : Uuid
  pub url : String
  pub api_token : String
  pub webhook_secret : String
  pub pause_statuses : List String
  pub updated_at : Time
  pub updated_by : Option Uuid

pub record IntegrationKey : Type 0 where
  pub id : Uuid
  pub service : String
  pub api_key : String
  pub api_url : String
  pub updated_at : Time

pub record CustomerOrg : Type 0 where
  pub id : Uuid
  pub name : String
  pub oidc_group : String
  pub zammad_org_id : Option ℕ
  pub created_at : Time
  pub updated_at : Time

pub record AutoTicketRule : Type 0 where
  pub id : Uuid
  pub name : String
  pub enabled : Bool
  pub alert_group : Option String
  pub min_severity : Option String
  pub default_priority : String
  pub default_group : Option String
  pub title_template : String
  pub created_at : Time
  pub updated_at : Time

pub record GroupRosterMapping : Type 0 where
  pub id : Uuid
  pub zammad_group : String
  pub roster_id : String
  pub auto_assign : Bool
  pub escalate_to_secondary : Bool
  pub created_at : Time

-- a list that the body leaves out, or null, is nil
pub record UpdateZammadConfigRequest : Type 0 where
  pub url : String
  pub api_token : String
  pub webhook_secret : String
  pub pause_statuses : Option (List String)

pub record UpdateIntegrationKeyRequest : Type 0 where
  pub api_key : String
  pub api_url : String

pub record CreateCustomerOrgRequest : Type 0 where
  pub name : String
  pub oidc_group : String
  pub zammad_org_id : Option ℕ

pub record UpdateCustomerOrgRequest : Type 0 where
  pub name : Option String
  pub oidc_group : Option String
  pub zammad_org_id : Option ℕ

pub record CreateAutoTicketRuleRequest : Type 0 where
  pub name : String
  pub enabled : Option Bool
  pub alert_group : Option String
  pub min_severity : Option String
  pub default_priority : String
  pub default_group : Option String
  pub title_template : String

pub record UpdateAutoTicketRuleRequest : Type 0 where
  pub name : Option String
  pub enabled : Option Bool
  pub alert_group : Option String
  pub min_severity : Option String
  pub default_priority : Option String
  pub default_group : Option String
  pub title_template : Option String

pub record CreateGroupRosterMappingRequest : Type 0 where
  pub zammad_group : String
  pub roster_id : String
  pub auto_assign : Option Bool
  pub escalate_to_secondary : Option Bool

pub record UpdateGroupRosterMappingRequest : Type 0 where
  pub roster_id : Option String
  pub auto_assign : Option Bool
  pub escalate_to_secondary : Option Bool

-- the public view of the Zammad configuration
pub record ZammadConfigSummary : Type 0 where
  pub url : String
  pub has_token : Bool
  pub pause_statuses : List String
  pub updated_at : Time

-- the public view of an integration key
pub record IntegrationKeySummary : Type 0 where
  pub api_url : String
  pub updated_at : Time

pub record ConfigOverview : Type 0 where
  pub managed : Bool
  pub zammad : Option ZammadConfigSummary
  pub nightowl : Option IntegrationKeySummary
  pub bookowl : Option IntegrationKeySummary

pub record TestZammadRequest : Type 0 where
  pub url : String
  pub api_token : String

pub record UpdateZammadPauseStatusesRequest : Type 0 where
  pub pause_statuses : Option (List String)
