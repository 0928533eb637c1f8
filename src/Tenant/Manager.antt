-- ===== src/Tenant/Manager.antt =====
-- src/sample/tenant/manager.py: `TenantManager`, all but `render_soul`, which stands with the SOUL.
use whatsapp_sales_saas_temp.Exec.{Exec, gets, or_raise, pure, raise, ◌>>=◌, ◌>>◌}
use whatsapp_sales_saas_temp.Models.{Tenant, active, default_model, provisioning}
use whatsapp_sales_saas_temp.Prelude.{
  Bool, Option, Text, [], if◌then◌else◌, is_some, lit, none, some, ℕ, ◌++◌, ◌∷◌,
}
use whatsapp_sales_saas_temp.Result.{key_error, value_error}
use whatsapp_sales_saas_temp.Tenant.Fleet.{Fleet, in_repo, in_spawner}
use whatsapp_sales_saas_temp.Tenant.Repository.{Repository, add, by_slug, get, unknown, update}
use whatsapp_sales_saas_temp.Tenant.Spawner.{spawn}
use whatsapp_sales_saas_temp.Unicode.{Unicode}

-- `model or default_model`
abbrev pub or_default : Option Text → Text
or_default none = default_model
or_default (some []) = default_model
or_default (some (c ∷ s)) = c ∷ s

abbrev pub new_tenant : Text → ℕ → Text → Text → Option Text → Tenant
new_tenant id now name slug model = record {
  id = id;
  name = name;
  slug = slug;
  status = provisioning;
  whatsapp_phone_number_id = none;
  model = or_default model;
  created_at = now;
}

-- `id` and `now` are what `uuid4` and the clock give to the new tenant.
unfoldable pub create : Unicode → Text → ℕ → Text → Text → Option Text → Exec Repository Tenant
create u id now name slug model = do
  taken ← gets (by_slug slug)
  if is_some taken
      then raise (value_error (lit "tenant slug already exists: " ++ u.repr slug))
      else add (new_tenant id now name slug model)

unfoldable pub get_tenant : Text → Exec Repository Tenant
get_tenant tenant_id = do
  found ← gets (get tenant_id)
  or_raise (key_error (unknown tenant_id)) found

-- `wired`: whether the manager was given a spawner.
unfoldable pub activate : Bool → Text → Exec Fleet Tenant
unfolding get_tenant
activate wired tenant_id = do
  tenant ← in_repo (get_tenant tenant_id)
  if wired then in_spawner (spawn tenant) else pure tt
  in_repo (update (record tenant { status = active }))
