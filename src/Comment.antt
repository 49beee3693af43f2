-- ===== src/Comment.antt =====
-- internal/comment: the thread of a ticket.
pub mod Types
pub mod Store
pub mod Service
pub mod Handler
