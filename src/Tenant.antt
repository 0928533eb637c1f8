-- ===== src/Tenant.antt =====
-- src/sample/tenant: the repository, the spawner, the router, the supervisor and the manager.
pub mod Repository
pub mod Spawner
pub mod Router
pub mod Fleet
pub mod Supervisor
pub mod Manager
