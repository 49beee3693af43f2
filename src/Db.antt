-- ===== src/Db.antt =====
-- The tenant database that the stores query through `db.DBTX`, with the constraints of
-- migrations/tenant.
pub mod Laws
pub mod Sample
pub mod Keys
use ticketowl.Base.{
  ℕ, suc, ◌+◌, ◌≡◌, refl, Bool, true, false, Option, none, some, List, [], ◌∷◌, String, Error,
  failed, no_rows, Result, ok, err, Action, if◌then◌else◌, find?, or_raise, ltb, ◌^◌, ◌&&◌, leb,
}
use ticketowl.Sla.Types.{Time, Uuid, Policy, State}
use ticketowl.Ticket.Types.{Meta}
use ticketowl.Link.Types.{IncidentLink, ArticleLink, PostMortemLink}
use ticketowl.Comment.Types.{InternalNote}
use ticketowl.Admin.Types.{
  ZammadConfig, IntegrationKey, CustomerOrg, AutoTicketRule, GroupRosterMapping,
}
use ticketowl.Base.Int.{ℤ, pos_part, neg_part}

-- One list of rows for a table. `down n` says that the query with number `n` fails (a lost
-- connection, a cancelled context), `queries` counts the queries made, `next_id` stands for
-- gen_random_uuid() and `clock` for now().
pub record Db : Type 0 where
  pub down : ℕ → Bool
  pub queries : ℕ
  pub next_id : Uuid
  pub clock : Time
  pub ticket_meta : List Meta
  pub sla_policies : List Policy
  pub sla_states : List State
  pub incident_links : List IncidentLink
  pub article_links : List ArticleLink
  pub postmortem_links : List PostMortemLink
  pub internal_notes : List InternalNote
  pub zammad_config : List ZammadConfig
  pub integration_keys : List IntegrationKey
  pub customer_orgs : List CustomerOrg
  pub auto_ticket_rules : List AutoTicketRule
  pub group_roster_mappings : List GroupRosterMapping

-- A query fails as a whole, or reads and writes the tables.
unfoldable pub query : {A : Type 0} → Action Db A → Action Db A
query run db =
    let db' = record db { queries = suc db.queries } in
    if db.down db.queries then (err failed, db') else run db'

-- `QueryRow(...).Scan`: the first row, or pgx.ErrNoRows.
abbrev pub row : {A : Type 0} → Option A → Action Db A
row found = or_raise found no_rows

-- The value fits the column type INTEGER, which is what the driver encodes it as.
unfoldable pub fits_int4 : ℤ → Bool
fits_int4 a = ltb (pos_part a) (2 ^ 31) && leb (neg_part a) (2 ^ 31)

-- The value fits NUMERIC(4,3), in thousandths.
unfoldable pub fits_numeric : ℤ → Bool
fits_numeric a = ltb (pos_part a) 10000 && ltb (neg_part a) 10000
