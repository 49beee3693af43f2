-- ===== src/Worker/World.antt =====
-- The poller between the tenant's database and NightOwl: the state that a cycle works on.
pub mod Quiet
pub mod Settle
pub mod Breaches
pub mod Warnings
pub mod Once
pub mod Sample
mod Tests
use ticketowl.Base.{◌++◌, ◌∷◌, [], ok, err, Action, Bool, ℕ, List, if◌then◌else◌, suc, failed}
use ticketowl.Worker.Store
use ticketowl.Worker.Types.{SlaPollerStore}
use ticketowl.Worker.Poller
use ticketowl.Db.{Db}
use ticketowl.NightOwl.Types.{CreateAlertRequest, Alert}
use ticketowl.Sla.Types.{Time}

-- `delivered n` says that the alert call with number `n` reaches NightOwl, `answered n` that its
-- answer comes back. `alerts` are the alerts that NightOwl has.
pub record World : Type 0 where
  pub db : Db
  pub delivered : ℕ → Bool
  pub answered : ℕ → Bool
  pub reply : CreateAlertRequest → Alert
  pub alert_calls : ℕ
  pub alerts : List CreateAlertRequest

-- A query of the world's database.
abbrev pub on_db : {A : Type 0} → Action Db A → Action World A
on_db m w = let (r, db') = m w.db in (r, record w { db = db' })

unfoldable pub create_alert : CreateAlertRequest → Action World Alert
create_alert req w =
    let alerts = if w.delivered w.alert_calls then w.alerts ++ req ∷ [] else w.alerts in
    let w' = record w { alert_calls = suc w.alert_calls; alerts = alerts } in
    (if w.answered w.alert_calls then ok (w.reply req) else err failed, w')

-- `NewPollerStore`
unfoldable pub db_store : SlaPollerStore World
db_store = record {
  list_breached_tickets = λ now. on_db (Store.list_breached_tickets now);
  list_active_states = on_db Store.list_active_states;
  get_policy_by_id = λ id. on_db (Store.get_policy_by_id id);
  upsert_state = λ s. on_db (Store.upsert_state s);
  get_ticket_meta_by_id = λ id. on_db (Store.get_ticket_meta_by_id id);
}

-- One cycle, with the moments at which the context is cancelled.
unfoldable pub poll_once : (World → Bool) → Time → World → World
unfolding Poller.poll create_alert
poll_once cancelled now = Poller.poll db_store create_alert cancelled now

-- `Run` of the poller
unfoldable pub run_poller : (World → Bool) → List Time → World → World
unfolding Poller.run_cycles create_alert
run_poller cancelled ticks = Poller.run_cycles db_store create_alert cancelled ticks
