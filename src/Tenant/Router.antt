-- ===== src/Tenant/Router.antt =====
-- src/sample/tenant/router.py: `TenantRouter`.
use whatsapp_sales_saas_temp.Models.{Tenant}
use whatsapp_sales_saas_temp.Prelude.{Option, Text, lit, none, some, ◌++◌}
use whatsapp_sales_saas_temp.Result.{Result, err, ok, unknown_tenant}
use whatsapp_sales_saas_temp.Tenant.Repository.{Repository, by_phone_number_id}
use whatsapp_sales_saas_temp.Unicode.{Unicode}

abbrev pub no_tenant : Unicode → Text → Text
no_tenant u p = lit "no tenant for phone_number_id=" ++ u.repr p

unfoldable pub resolve : Unicode → Text → Repository → Result Tenant
resolve u p r = elim (by_phone_number_id p r) [
  | none ↦ err (unknown_tenant (no_tenant u p))
  | some tenant ↦ ok tenant
]

unfoldable pub try_resolve : Text → Repository → Option Tenant
try_resolve p r = by_phone_number_id p r
