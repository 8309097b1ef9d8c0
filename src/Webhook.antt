-- ===== src/Webhook.antt =====
-- internal/webhook: subscriptions, deliveries and the worker that retries them.
pub mod Tables
pub mod Service
pub mod Worker
