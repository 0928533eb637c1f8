-- ===== src/Api/App.antt =====
-- The state behind the handlers (`_client` and its stores), and `buyer_id_for` of
-- src/sample/client.py. `G` and `L` are the states of the gateway and of the model.
pub mod BuyerId
use whatsapp_sales_saas_temp.Exec.{Exec, within}
use whatsapp_sales_saas_temp.Hindsight.{Hindsight}
use whatsapp_sales_saas_temp.Memory.{BuyerInteraction, Memory, remember}
use whatsapp_sales_saas_temp.Prelude.{Text, lit, ℕ, ◌++◌}
use whatsapp_sales_saas_temp.Result.{ok}
use whatsapp_sales_saas_temp.Tenant.Fleet.{Fleet}
use whatsapp_sales_saas_temp.Tenant.Repository.{Repository}

-- `f"{tenant_slug}:{from_number}"`
unfoldable pub buyer_id_for : Text → Text → Text
buyer_id_for tenant_slug from_number = tenant_slug ++ (lit ":" ++ from_number)

pub record App (G L : Type 0) : Type 0 where
  pub fleet : Fleet
  pub hindsight : Hindsight
  pub memory : Memory
  pub gateway : G
  pub llm : L

pub record Response : Type 0 where
  pub status_code : ℕ
  pub content : Text

module _ {G L : Type 0} where
  abbrev pub in_app_repo : {A : Type 0} → Exec Repository A → Exec (App G L) A
  in_app_repo =
      within (λ a. a.fleet.repo) (λ r a. record a { fleet = record (a.fleet) { repo = r } })

  abbrev pub in_gateway : {A : Type 0} → Exec G A → Exec (App G L) A
  in_gateway = within (λ a. a.gateway) (λ g a. record a { gateway = g })

  abbrev pub in_llm : {A : Type 0} → Exec L A → Exec (App G L) A
  in_llm = within (λ a. a.llm) (λ l a. record a { llm = l })

  abbrev pub remembering : Text → BuyerInteraction → Exec (App G L) Unit
  remembering buyer_id x a = (ok tt, record a { memory = remember buyer_id x a.memory })
