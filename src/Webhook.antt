-- ===== src/Webhook.antt =====
-- Receiving HTTP deliveries: packages/sdk-typescript/src/webhook.
pub mod Headers
pub mod Signature
pub mod Receive
