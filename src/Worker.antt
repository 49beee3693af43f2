-- ===== src/Worker.antt =====
-- internal/worker: the SLA poller, the event handlers and the auto-ticket rules.
pub mod Types
pub mod Poller
pub mod Store
pub mod World
pub mod Races
pub mod Budget
pub mod Setup
pub mod AutoTicket
pub mod Clock
pub mod Handler
pub mod Events
