-- ===== src/Worker/Handler/Incidents.antt =====
-- internal/worker/resolve.go: `handleIncidentCreated`.
pub mod Laws
mod Tests
use ticketowl.Worker.AutoTicket
use ticketowl.Ticket.Store as TicketStore
use ticketowl.Link.Store as LinkStore
use ticketowl.Admin.Store as AdminStore
use ticketowl.Admin.Types.{AutoTicketRule as AdminRule}
use ticketowl.Worker.Types.{AutoTicketRule, NightOwlEvent}
use ticketowl.Base.{
  String, Option, Action, List, if◌then◌else◌, ◌>>=◌, pure, ◌>>◌, not, ◌∷◌, or_raise, str_eq, none,
  ignore, invalid, map, [],
}
use ticketowl.Zammad.Api.{ZammadClient}
use ticketowl.NightOwl.Api.{NightOwlClient}
use ticketowl.Worker.Handler.Assign.{auto_assign_ticket}
use ticketowl.Sla.Types.{Uuid, met}
use ticketowl.Zammad.Types.{Ticket}
use ticketowl.Worker.Handler.Context.{
  zammad_client, acquire_conn, on_db, on_remote, ticket_request, to_rule,
}
use ticketowl.Db.{Db}
use ticketowl.Ticket.Types.{Meta}

abbrev pub title_of : NightOwlEvent → AutoTicketRule → String
title_of evt rule = AutoTicket.render_title rule.title_template evt

module _ {R : Type 0} (nightowl : String → String → NightOwlClient R) where
  -- the group of the new ticket, or else the one of the rule
  unfoldable pub assign_new : ZammadClient R → AutoTicketRule → Ticket → Action (Db × R) (Unit {0})
  assign_new client rule ticket =
      if not (str_eq ticket.group "")
      then auto_assign_ticket nightowl client ticket.id ticket.group
      else if not (str_eq rule.default_group "")
      then auto_assign_ticket nightowl client ticket.id rule.default_group
      else pure tt

  abbrev pub link_meta :
      ZammadClient R
      → NightOwlEvent
      → Uuid
      → AutoTicketRule
      → Ticket
      → Meta
      → Action (Db × R) (Unit {0})
  link_meta client evt incident_id rule ticket meta =
      ignore (on_db (LinkStore.create_incident_link meta.id incident_id 0 evt.slug))
      >> assign_new client rule ticket

  -- what follows a ticket's creation; uuid.Nil stands for the one who links
  unfoldable pub link_new :
      ZammadClient R → NightOwlEvent → Uuid → AutoTicketRule → Ticket → Action (Db × R) (Unit {0})
  link_new client evt incident_id rule ticket =
      on_db (TicketStore.upsert ticket.id ticket.number none)
      >>= link_meta client evt incident_id rule ticket

  unfoldable pub apply_rule :
      ZammadClient R → NightOwlEvent → Uuid → AutoTicketRule → Action (Db × R) (Unit {0})
  apply_rule client evt incident_id rule =
      on_remote (client.create_ticket (ticket_request (title_of evt rule)))
      >>= link_new client evt incident_id rule

  -- an error goes on with the next rule
  unfoldable pub apply_rules :
      ZammadClient R → NightOwlEvent → Uuid → List AutoTicketRule → Action (Db × R) (Unit {0})
  apply_rules client evt incident_id [] = pure tt
  apply_rules client evt incident_id (rule ∷ rules) = do
    ignore (apply_rule client evt incident_id rule)
    apply_rules client evt incident_id rules

module _ {R : Type 0} (zammad : String → String → ZammadClient R)
    (nightowl : String → String → NightOwlClient R) (parse_uuid : String → Option Uuid) where
  unfoldable pub create_for : NightOwlEvent → List AutoTicketRule → Action (Db × R) (Unit {0})
  create_for evt [] = pure tt
  create_for evt (rule ∷ rules) = do
    client ← zammad_client zammad
    incident_id ← or_raise (parse_uuid evt.incident_id) invalid
    apply_rules nightowl client evt incident_id (rule ∷ rules)

  unfoldable pub handle_incident_created :
      (List AdminRule → List AdminRule)
      → (Uuid → String)
      → NightOwlEvent
      → Action (Db × R) (Unit {0})
  handle_incident_created by_name id_text evt = do
    acquire_conn
    rules ← on_db (AdminStore.Rules.list_auto_ticket_rules by_name)
    create_for evt (AutoTicket.find_matching_rules (map (to_rule id_text) rules) evt)
