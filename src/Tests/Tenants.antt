-- ===== src/Tests/Tenants.antt =====
-- The tenants, the onboarding and the slugs.
use whatsapp_sales_saas_temp.Api.Tenants.{
  Reply, TenantCreate, TenantOut, TenantUpdate, answered, create_tenant, refused, update_tenant,
}
use whatsapp_sales_saas_temp.Api.Tenants.Kept.{asked_tenant, create_tenant-cases}
use whatsapp_sales_saas_temp.Dict.{lookup}
use whatsapp_sales_saas_temp.Events.{Bus}
use whatsapp_sales_saas_temp.Models.{Tenant}
use whatsapp_sales_saas_temp.Onboarding.{OnboardingResult, onboarded, run}
use whatsapp_sales_saas_temp.Onboarding.Flow.{newcomer, run-new, run-run}
use whatsapp_sales_saas_temp.Prelude.{
  [], arith, decimal, false, is_some, lit, none, refl, some, true, ℕ, ◌++◌, ◌<◌, ◌==◌, ◌∷◌, ◌≡◌,
  ◌≢◌, ◌⊎◌,
}
use whatsapp_sales_saas_temp.Result.{Result, ok}
use whatsapp_sales_saas_temp.Slug.Unique.{candidate, unique_slug, unique_slug_first}
use whatsapp_sales_saas_temp.Tenant.Fleet.{Fleet}
use whatsapp_sales_saas_temp.Tenant.Repository.{
  Repository, by_phone_number_id, by_slug, get, list_all,
}
use whatsapp_sales_saas_temp.Tenant.Repository.Laws.{IsKeyed, IsWellFormed}
use whatsapp_sales_saas_temp.Tenant.Router.{resolve}
use whatsapp_sales_saas_temp.Tenant.Spawner.{is_running}
use whatsapp_sales_saas_temp.Tests.Shop.{
  bakery, new_shop, no_reaction, quiet_bus, shop, shop_fleet, two_tenants,
}
use whatsapp_sales_saas_temp.Unicode.{ascii}

abbrev onboarded_shop : Result OnboardingResult × (Bus ℕ × Fleet)
onboarded_shop = run no_reaction ascii (lit "t3") 7 new_shop (quiet_bus, shop_fleet)

abbrev made_shop : Tenant
made_shop = newcomer ascii (lit "t3") 7 new_shop shop_fleet.repo

id_is_new : get (lit "t3") shop_fleet.repo ≡ none
unfolding get lookup ◌==◌
id_is_new = refl

phone_is_new : by_phone_number_id (lit "777") shop_fleet.repo ≡ none
unfolding by_phone_number_id ◌==◌
phone_is_new = refl

run-new_example :
    (onboarded_shop.0 ≡ ok (record { tenant = made_shop; is_new = true }))
    × (list_all onboarded_shop.1.1.repo ≡ list_all two_tenants ++ made_shop ∷ [])
    × (resolve ascii (lit "777") onboarded_shop.1.1.repo ≡ ok made_shop)
    × (is_running (lit "t3") onboarded_shop.1.1.spawner ≡ true)
    × (onboarded_shop.1.0.events ≡ onboarded 7 made_shop new_shop ∷ [])
run-new_example =
    run-new no_reaction ascii (lit "t3") 7 new_shop quiet_bus shop_fleet refl id_is_new phone_is_new

run-run_example :
    run no_reaction ascii
      (lit "t4")
      8
      (record new_shop { business_name = lit "Other" })
      onboarded_shop.1
    ≡ (ok (record { tenant = made_shop; is_new = false }), onboarded_shop.1)
run-run_example =
    run-run no_reaction ascii (lit "t3") 7 new_shop quiet_bus shop_fleet (lit "t4") 8
      (record new_shop { business_name = lit "Other" }) refl id_is_new phone_is_new refl

unique_slug_first_example :
    (n : ℕ) × (unique_slug (lit "shop") two_tenants ≡ candidate (lit "shop") n)
    × (by_slug (unique_slug (lit "shop") two_tenants) two_tenants ≡ none)
    × ((m : ℕ) → m < n → is_some (by_slug (candidate (lit "shop") m) two_tenants) ≡ true)
unique_slug_first_example = unique_slug_first (lit "shop") two_tenants

keyed : IsKeyed two_tenants.by_id
keyed = (refl, (refl, tt))

shop_bakery : bakery.slug ≢ shop.slug
shop_bakery e = ground arith

well_formed : IsWellFormed two_tenants
unfolding lookup ◌==◌
well_formed = record { keyed = keyed; distinct = (refl, (shop_bakery, tt), (refl, tt, tt)) }

abbrev asks_florist : TenantCreate
asks_florist = record {
  name = lit "Florist & Sons";
  slug = lit "florist";
  model = some [];
  whatsapp_phone_number_id = some (lit "888");
}

abbrev made_florist : Result (Reply TenantOut) × Repository
made_florist = create_tenant ascii decimal (lit "t3") 7 asks_florist two_tenants

create_tenant-cases_example :
    IsWellFormed made_florist.1
    × ((is_some (by_slug (lit "florist") two_tenants) ≡ true)
          × (made_florist.0
              ≡ ok (refused 409 (lit "tenant slug already exists: " ++ ascii.repr (lit "florist"))))
          × (made_florist.1 ≡ two_tenants)
        ⊎ ((by_slug (lit "florist") two_tenants ≡ none)
            × (get (lit "t3") made_florist.1 ≡ some (asked_tenant (lit "t3") 7 asks_florist))
            × (made_florist.0
                ≡ ok (
                    answered (record {
                      id = lit "t3";
                      name = lit "Florist & Sons";
                      slug = lit "florist";
                      status = lit "PROVISIONING";
                      model = lit "anthropic/claude-3.5-sonnet";
                      whatsapp_phone_number_id = some (lit "888");
                      created_at = decimal 7;
                    })))))
create_tenant-cases_example =
    create_tenant-cases ascii decimal (lit "t3") 7 asks_florist two_tenants id_is_new well_formed

abbrev new_model : TenantUpdate
new_model = record { model = some (lit "m"); whatsapp_phone_number_id = none }

abbrev updated_bakery : Result (Reply TenantOut) × Repository
updated_bakery = update_tenant ascii decimal (lit "t2") new_model two_tenants
