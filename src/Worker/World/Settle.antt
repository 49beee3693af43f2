-- ===== src/Worker/World/Settle.antt =====
-- One breached row of a cycle: the alert that it asks for and the world once it is written.
use ticketowl.Worker.World.Quiet.{
  IsQuiet, later, get_ticket_meta_by_id_ran, get_policy_by_id_ran, upsert_state_ran,
}
use ticketowl.Worker.Poller
use ticketowl.Base.{List, suc, Bool, find?, ◌++◌, ◌≡◌, ◌∷◌, none, some, [], any, true, arith}
use ticketowl.Worker.World.{Time, db_store, create_alert, CreateAlertRequest, World}
use ticketowl.Ticket.Types.{Meta}
use ticketowl.Sla.Types.{State, Policy, Uuid}
use ticketowl.Notification.{breach_alert}
use ticketowl.Sla.Store.{has_meta_id, of_ticket, has_policy_id, keep_id}
use ticketowl.Base.Table.{upsert}
use ticketowl.Db.{fits_int4}

-- The ticket and the policy of a row are in the tables, and the row can be written.
pub record IsTracked (metas : List Meta) (policies : List Policy) (s : State) : Type 0 where
  pub ticket : Meta
  pub policy_id : Uuid
  pub policy : Policy
  pub ticket_found : find? (has_meta_id s.ticket_meta_id) metas ≡ some ticket
  pub ticket_known : any (has_meta_id s.ticket_meta_id) metas ≡ true
  pub has_policy : ticket.sla_policy_id ≡ some policy_id
  pub policy_found : find? (has_policy_id policy_id) policies ≡ some policy
  pub fits : fits_int4 s.accumulated_pause_secs ≡ true

-- The alert that a row asks for.
abbrev pub alert_for :
    Time
    → {metas : List Meta} {policies : List Policy} (s : State) → IsTracked metas policies s
    → CreateAlertRequest
alert_for now s t = breach_alert (record {
  ticket_zammad_id = t.ticket.zammad_id;
  ticket_number = t.ticket.zammad_number;
  sla_type = Poller.breach_type now s;
  priority = t.policy.priority;
})

-- The alert that a row asks for, from the tables; none if its ticket or its policy is not there.
abbrev pub alert_of : Time → List Meta → List Policy → State → List CreateAlertRequest
alert_of now metas policies s = elim (find? (has_meta_id s.ticket_meta_id) metas) [
  | none ↦ []
  | some m ↦ elim m.sla_policy_id [
    | none ↦ []
    | some id ↦ elim (find? (has_policy_id id) policies) [
      | none ↦ []
      | some p ↦
          breach_alert (record {
            ticket_zammad_id = m.zammad_id;
            ticket_number = m.zammad_number;
            sla_type = Poller.breach_type now s;
            priority = p.priority;
          })
          ∷ []
    ]
  ]
]

pub alert_of_tracked :
    (now : Time) (metas : List Meta) (policies : List Policy) (s : State)
    → (t : IsTracked metas policies s) → alert_of now metas policies s ≡ alert_for now s t ∷ []
alert_of_tracked now metas policies s t =
    ground (arith, t.ticket_found, t.has_policy, t.policy_found)

-- The world after the alert for a row and the write of the row.
abbrev pub settled : Time → State → CreateAlertRequest → World → World
settled now s req w = record w {
  alert_calls = suc w.alert_calls;
  alerts = w.alerts ++ req ∷ [];
  db = record (later (later (later w.db))) {
    sla_states =
        upsert (of_ticket s.ticket_meta_id) (keep_id (Poller.alerted now s)) (Poller.alerted now s)
          w.db.sla_states;
  };
}

pub settled-IsQuiet :
    (now : Time) (s : State) (req : CreateAlertRequest) (w : World)
    → IsQuiet w
    → IsQuiet (settled now s req w)
settled-IsQuiet now s req w q = record { up = q.up; arrives = q.arrives; answers = q.answers }

pub process_settles :
    (cancelled : World → Bool) (now : Time) (s : State) (w : World)
    → IsQuiet w
    → s.first_breach_alerted_at ≡ none
    → (t : IsTracked w.db.ticket_meta w.db.sla_policies s)
    → Poller.process_breached_state db_store create_alert cancelled s now w
      ≡ settled now s (alert_for now s t) w
unfolding Poller.process_breached_state Poller.alert_breach db_store create_alert
process_settles cancelled now s w q fresh t = ground (
  arith,
  get_ticket_meta_by_id_ran w.db q.up s.ticket_meta_id t.ticket_found,
  get_policy_by_id_ran (later w.db) q.up t.policy_id t.policy_found,
  q.arrives w.alert_calls,
  q.answers w.alert_calls,
  upsert_state_ran (later (later w.db)) q.up (Poller.alerted now s) t.fits t.ticket_known,
)
