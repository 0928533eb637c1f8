-- ===== src/Tenant/Repository.antt =====
-- src/sample/tenant/repository.py: `InMemoryTenantRepository`.
pub mod Laws
pub mod Growth
use whatsapp_sales_saas_temp.Dict.{Dict, insert, lookup, values}
use whatsapp_sales_saas_temp.Exec.{Exec}
use whatsapp_sales_saas_temp.Models.{Tenant}
use whatsapp_sales_saas_temp.Prelude.{
  Bool, List, Option, Text, false, find, if◌then◌else◌, is_some, lit, none, some, ◌++◌, ◌==◌,
}
use whatsapp_sales_saas_temp.Result.{err, key_error, ok}

pub record Repository : Type 0 where
  pub by_id : Dict Tenant

unfoldable pub add : Tenant → Exec Repository Tenant
add t r = (ok t, record { by_id = insert t.id t r.by_id })

unfoldable pub get : Text → Repository → Option Tenant
get tenant_id r = lookup tenant_id r.by_id

-- `t.whatsapp_phone_number_id == phone_number_id`, false on `None`
abbrev pub is_phone : Text → Option Text → Bool
is_phone p none = false
is_phone p (some q) = q == p

unfoldable pub by_slug : Text → Repository → Option Tenant
by_slug slug r = find (λ t. t.slug == slug) (values r.by_id)

unfoldable pub by_phone_number_id : Text → Repository → Option Tenant
by_phone_number_id p r = find (λ t. is_phone p t.whatsapp_phone_number_id) (values r.by_id)

unfoldable pub list_all : Repository → List Tenant
list_all r = values r.by_id

abbrev pub unknown : Text → Text
unknown tenant_id = lit "unknown tenant: " ++ tenant_id

unfoldable pub update : Tenant → Exec Repository Tenant
update t r =
    if is_some (lookup t.id r.by_id)
    then (ok t, record { by_id = insert t.id t r.by_id })
    else (err (key_error (unknown t.id)), r)
