-- ===== src/Worker/Budget.antt =====
-- internal/worker/slapoller.go: the poller over many cycles, with alerts that fail and cycles that are
-- cut off. Each ticket has one alert to spend.
pub mod Rows
mod Steps
mod Loop
pub mod Laws
mod Tests
use ticketowl.Base.{
  ℕ, ◌≤◌, ◌≡◌, length, false, ◌+◌, true, All, List, Bool, find?, filter, any, some, str_eq, ◌&&◌,
  ◌==◌,
}
use ticketowl.Base.Unique.{Unique}
use ticketowl.Db.Keys.{same_state}
use ticketowl.Worker.World.{World}
use ticketowl.Sla.Store.{has_meta_id}
use ticketowl.Sla.Types.{Uuid}
use ticketowl.Ticket.Types.{Meta}
use ticketowl.NightOwl.Types.{CreateAlertRequest}
use ticketowl.Worker.Budget.Rows.{unalerted, Fits}

-- A ticket with its row of ticket_meta, in the table that the poller does not write.
pub record Ticket : Type 0 where
  pub metas : List Meta
  pub meta : Meta

-- the number of the ticket that an alert names
abbrev pub names : Ticket → CreateAlertRequest → Bool
names k alert =
    any (λ label. str_eq label.0 "ticket_number" && str_eq label.1 k.meta.zammad_number)
      alert.labels

-- The queries are answered, an alert that reaches NightOwl is answered, no ticket has two rows, the
-- rows fit their columns, and no other ticket has the number.
pub record IsReady (k : Ticket) (w : World) : Type 0 where
  pub up : (n : ℕ) → w.db.down n ≡ false
  pub replies : (n : ℕ) → w.delivered n ≡ true → w.answered n ≡ true
  pub unique : Unique same_state w.db.sla_states
  pub fit : All Fits w.db.sla_states
  pub metas : w.db.ticket_meta ≡ k.metas
  pub own_number :
      (id : Uuid) (m : Meta)
      → find? (has_meta_id id) k.metas ≡ some m
      → str_eq m.zammad_number k.meta.zammad_number ≡ true
      → (id == k.meta.id) ≡ true

-- the alerts about the ticket
abbrev pub alerts_of : Ticket → World → ℕ
alerts_of k w = length (filter (names k) w.alerts)

abbrev pub budget : Ticket → World → ℕ
budget k w = alerts_of k w + unalerted k.meta.id w.db.sla_states

pub record Spends (k : Ticket) (w w' : World) : Type 0 where
  pub ready : IsReady k w'
  pub spent : budget k w' ≤ budget k w
