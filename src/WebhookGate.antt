-- ===== src/WebhookGate.antt =====
-- packages/automa-webhook-gate: signed deliveries, each let through once.
pub mod Common
pub mod Stripe
pub mod Slack
pub mod Github
pub mod Store
pub mod Gate
