-- ===== src/Tests/Shop.antt =====
-- The sample that the tests share.
use whatsapp_sales_saas_temp.Memory.{Role as Speaker}
use whatsapp_sales_saas_temp.Api.App.{App}
use whatsapp_sales_saas_temp.Events.{Bus, Event}
use whatsapp_sales_saas_temp.Exec.{Exec}
use whatsapp_sales_saas_temp.Hindsight.{Hindsight}
use whatsapp_sales_saas_temp.Memory.{BuyerInteraction, empty_memory}
use whatsapp_sales_saas_temp.Models.{Fact, Tenant, active, default_model}
use whatsapp_sales_saas_temp.Onboarding.{MetaSignupPayload}
use whatsapp_sales_saas_temp.Prelude.{Option, Text, [], lit, none, some, ℕ, ◌∷◌}
use whatsapp_sales_saas_temp.Result.{ok}
use whatsapp_sales_saas_temp.Tenant.Fleet.{Fleet}
use whatsapp_sales_saas_temp.Tenant.Repository.{Repository}
use whatsapp_sales_saas_temp.Whatsapp.Gateway.{Outbox}

abbrev pub tenant_of : Text → Text → Option Text → Tenant
tenant_of id slug phone = record {
  id = id;
  name = slug;
  slug = slug;
  status = active;
  whatsapp_phone_number_id = phone;
  model = default_model;
  created_at = 0;
}

abbrev pub shop : Tenant
shop = tenant_of (lit "t1") (lit "shop") (some (lit "555"))

abbrev pub bakery : Tenant
bakery = tenant_of (lit "t2") (lit "bakery") none

abbrev pub two_tenants : Repository
two_tenants = record { by_id = (lit "t1", shop) ∷ (lit "t2", bakery) ∷ [] }

abbrev pub shop_fleet : Fleet
shop_fleet = record { repo = two_tenants; spawner = record { running = lit "t1" ∷ [] } }

abbrev pub fact_of : Text → Text → Fact
fact_of tenant_id content = record {
  id = content;
  tenant_id = tenant_id;
  source = lit "list.csv";
  content = content;
  metadata = [];
  created_at = 0;
}

abbrev pub facts : Hindsight
facts = record {
  facts = fact_of (lit "t1") (lit "Red shoes") ∷ fact_of (lit "t2") (lit "Red cake") ∷ [];
}

abbrev pub note : Speaker → Text → BuyerInteraction
note role said = record { text = said; role = role; at = 0; metadata = [] }

abbrev pub shop_app : App Outbox Unit
shop_app = record {
  fleet = shop_fleet;
  hindsight = facts;
  memory = empty_memory;
  gateway = record { sent = [] };
  llm = tt;
}

abbrev pub no_reaction : ℕ → Event → Exec (Bus ℕ × Fleet) Unit
no_reaction h e s = (ok tt, s)

abbrev pub quiet_bus : Bus ℕ
quiet_bus = record { events = []; handlers = [] }

abbrev pub new_shop : MetaSignupPayload
new_shop = record {
  phone_number_id = lit "777";
  business_name = lit "Shop";
  waba_id = none;
  business_id = none;
}
