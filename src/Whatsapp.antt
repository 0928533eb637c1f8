-- ===== src/Whatsapp.antt =====
-- src/sample/whatsapp: the inbound webhook's parsing, and the outbound gateway.
pub mod Webhook
pub mod Envelope
pub mod Gateway
pub mod Kapso
