-- ===== src/Admin.antt =====
-- internal/admin.
pub mod Types
pub mod Store
pub mod Handler
