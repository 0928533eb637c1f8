-- ===== src/Tenant/Supervisor.antt =====
-- src/sample/tenant/supervisor.py: `TenantSupervisor`.
pub mod Laws
pub mod Kept
use whatsapp_sales_saas_temp.Exec.{Exec, gets, or_raise, pure, ◌>>=◌, ◌>>◌}
use whatsapp_sales_saas_temp.Models.{Tenant, TenantStatus, active, suspended}
use whatsapp_sales_saas_temp.Prelude.{Bool, Text}
use whatsapp_sales_saas_temp.Result.{key_error}
use whatsapp_sales_saas_temp.Tenant.Fleet.{Fleet, in_repo, in_spawner}
use whatsapp_sales_saas_temp.Tenant.Repository.{get, unknown, update}
use whatsapp_sales_saas_temp.Tenant.Spawner.{is_running, spawn, stop}

pub record TenantHealth : Type 0 where
  pub tenant_id : Text
  pub status : TenantStatus
  pub running : Bool

unfoldable pub require : Text → Exec Fleet Tenant
require tenant_id = do
  found ← gets (λ f. get tenant_id f.repo)
  or_raise (key_error (unknown tenant_id)) found

unfoldable pub bring_up : Text → Exec Fleet Tenant
unfolding require
bring_up tenant_id = do
  tenant ← require tenant_id
  in_spawner (spawn tenant)
  in_repo (update (record tenant { status = active }))

unfoldable pub bring_down : Text → Exec Fleet Tenant
unfolding require
bring_down tenant_id = do
  tenant ← require tenant_id
  in_spawner (stop tenant_id)
  in_repo (update (record tenant { status = suspended }))

unfoldable pub health : Text → Exec Fleet TenantHealth
unfolding require
health tenant_id = do
  tenant ← require tenant_id
  running ← gets (λ f. is_running tenant_id f.spawner)
  pure (record { tenant_id = tenant_id; status = tenant.status; running = running })
