-- ===== src/Zammad.antt =====
-- internal/zammad: the Zammad API client.
pub mod Types
pub mod Api
pub mod Endpoints
pub mod Signature
