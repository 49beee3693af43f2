-- ===== src/Link.antt =====
-- internal/link.
pub mod Types
pub mod Store
pub mod Service
pub mod Handler
