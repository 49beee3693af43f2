-- ===== src/Http.antt =====
-- The REST client that internal/zammad, internal/nightowl and internal/bookowl share, and what the
-- HTTP handlers answer.
pub mod Client
pub mod Respond
pub mod Transport
