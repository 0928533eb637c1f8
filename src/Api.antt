-- ===== src/Api.antt =====
-- services/api/main.py: the handlers, over the stores that the one `Client` of the module holds.
pub mod App
pub mod Tenants
pub mod Webhook
pub mod Service
