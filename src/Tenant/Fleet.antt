-- ===== src/Tenant/Fleet.antt =====
-- The stores that `Client` hands to the manager, the supervisor and the router alike.
use whatsapp_sales_saas_temp.Exec.{Exec, within}
use whatsapp_sales_saas_temp.Tenant.Repository.{Repository}
use whatsapp_sales_saas_temp.Tenant.Spawner.{Spawner}

pub record Fleet : Type 0 where
  pub repo : Repository
  pub spawner : Spawner

abbrev pub in_repo : {A : Type 0} → Exec Repository A → Exec Fleet A
in_repo = within (λ f. f.repo) (λ r f. record f { repo = r })

abbrev pub in_spawner : {A : Type 0} → Exec Spawner A → Exec Fleet A
in_spawner = within (λ f. f.spawner) (λ s f. record f { spawner = s })
