-- ===== src/Webhook.antt =====
-- internal/webhook: the handlers of the inbound webhooks.
pub mod Handler
