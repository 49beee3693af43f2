-- ===== src/Ticket.antt =====
-- internal/ticket.
pub mod Types
pub mod Store
pub mod Service
pub mod Suggestions
pub mod PostMortem
pub mod Handler
