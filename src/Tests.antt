-- ===== src/Tests.antt =====
-- The theorems at concrete inputs: a shop, a store with two tenants, one signed request.
mod Honcho
mod Shop
mod Requests
mod Tenants
mod Secrets
mod Setup
mod Services
mod Stores
mod Selling
mod Files
mod Whole
mod Concurrent
mod Models
mod Envelopes
