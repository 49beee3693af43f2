-- ===== src/NightOwl.antt =====
-- internal/nightowl: the NightOwl API.
pub mod Types
pub mod Api
pub mod Endpoints
