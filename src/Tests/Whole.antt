-- ===== src/Tests/Whole.antt =====
-- The whole service: a number is connected, then a buyer writes to it.
use whatsapp_sales_saas_temp.Api.Tenants.{OnboardingRequest}
use whatsapp_sales_saas_temp.Client.{new_client}
use whatsapp_sales_saas_temp.Dict.{lookup}
use whatsapp_sales_saas_temp.Llm.{echo_llm, echo_template}
use whatsapp_sales_saas_temp.Memory.{bucket}
use whatsapp_sales_saas_temp.Prelude.{Text, [], decimal, join, length, lit, none, refl, ℕ, ◌≡◌, ◌≤◌}
use whatsapp_sales_saas_temp.System.{
  Outside, Reach, World, after_connect, after_receive, begins, connects, continues, receives,
  started_with,
}
use whatsapp_sales_saas_temp.System.Invariant.{IsSound}
use whatsapp_sales_saas_temp.System.Steps.{Reach-IsSound}
use whatsapp_sales_saas_temp.Tenant.Repository.{get}
use whatsapp_sales_saas_temp.Tests.Requests.{digest, header, hex, hola, reads, secret}
use whatsapp_sales_saas_temp.Tests.Shop.{no_reaction}
use whatsapp_sales_saas_temp.Unicode.{ascii}

abbrev outside : Outside ℕ Unit
outside = record {
  u = ascii;
  isoformat = decimal;
  hex = hex;
  llm = echo_llm echo_template;
  hmac_hex = digest;
  parse_json = reads;
  app_secret = secret;
  show_tuple = join (lit ", ");
  extractors = [];
  react = no_reaction;
}

abbrev new_world : World ℕ Unit
new_world = started_with tt

abbrev shop_555 : OnboardingRequest
shop_555 = record {
  phone_number_id = lit "555";
  business_name = lit "Shop";
  waba_id = none;
  business_id = none;
}

abbrev connected_world : World ℕ Unit
connected_world = after_connect outside (lit "t1") 7 shop_555 new_world

abbrev heard_world : World ℕ Unit
heard_world = after_receive outside 8 hola header connected_world

no_t1 : get (lit "t1") new_world.app.fleet.repo ≡ none
unfolding get lookup new_client
no_t1 = refl

heard_reached : Reach outside tt heard_world
heard_reached =
    continues (continues begins (connects (lit "t1") 7 shop_555 no_t1)) (receives 8 hola header)

Reach-IsSound_example :
    IsSound heard_world × ((b : Text) → length (bucket b heard_world.app.memory) ≤ 50)
Reach-IsSound_example = Reach-IsSound outside tt heard_world heard_reached
