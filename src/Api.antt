-- ===== src/Api.antt =====
-- api/v1: the HeliosConfig resource and its validating webhook.
pub mod Types
pub mod Scheme
pub mod Webhook
