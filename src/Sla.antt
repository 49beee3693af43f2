-- ===== src/Sla.antt =====
-- internal/sla: policies, the computed and the persisted SLA state of a ticket.
pub mod Types
pub mod Compute
pub mod Store
pub mod Service
pub mod Handler
