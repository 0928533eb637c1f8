-- ===== src/Tests/Requests.antt =====
-- One signed request with one message.
use mathlib.Core.List.{flatten}
use whatsapp_sales_saas_temp.Api.App.{App, Response, buyer_id_for}
use whatsapp_sales_saas_temp.Api.Webhook.{response, webhook_receive}
use whatsapp_sales_saas_temp.Api.Webhook.Delivery.{IsDelivered}
use whatsapp_sales_saas_temp.Api.Webhook.Outcome.{
  webhook_receive-IsDelivered, webhook_receive-others,
}
use whatsapp_sales_saas_temp.Api.Webhook.Signed.{
  signed, verify_signature_complete, webhook_receive_unsigned,
}
use whatsapp_sales_saas_temp.Llm.{echo_llm, echo_template}
use whatsapp_sales_saas_temp.Memory.{bucket}
use whatsapp_sales_saas_temp.Models.{InboundMessage}
use whatsapp_sales_saas_temp.Prelude.{
  List, Text, [], arith, decimal, is_ascii, length, lit, refl, some, true, ℕ, ◌+◌, ◌==◌, ◌∷◌, ◌≡◌,
  ◌≢◌, ◌⊎◌,
}
use whatsapp_sales_saas_temp.Result.{Result, err, ok, traverse, type_error}
use whatsapp_sales_saas_temp.Tenant.Repository.{by_phone_number_id}
use whatsapp_sales_saas_temp.Tenant.Router.{try_resolve}
use whatsapp_sales_saas_temp.Tests.Shop.{shop, shop_app}
use whatsapp_sales_saas_temp.Unicode.{ascii}
use whatsapp_sales_saas_temp.Value.{
  Value, array, cons, done, field, find_field, get, is_text, iterate, nil, object, str, to_text,
}
use whatsapp_sales_saas_temp.Whatsapp.Gateway.{Outbox, in_memory_gateway}
use whatsapp_sales_saas_temp.Whatsapp.Webhook.{
  change_phone, entry_phone, extract_phone_number_id, first_some, parse_messages, read_change,
  read_entry, read_message, verify_signature,
}

abbrev pub hex : ℕ → Text
hex n = decimal n

abbrev pub digest : Text → List ℕ → Text
digest secret body = decimal (length secret + length body)

abbrev pub only : Value → Value
only v = array (cons v nil)

-- A delivery whose one message says the body.
abbrev pub delivery : Text → Value
delivery said = object (
    field (lit "entry")
      (only (
        object (
          field (lit "changes")
            (only (
              object (
                field (lit "value")
                  (object (
                    field (lit "metadata")
                      (object (field (lit "phone_number_id") (str (lit "555")) done))
                      (field (lit "messages")
                        (only (
                          object (
                            field (lit "type") (str (lit "text")) (
                              field (lit "from") (str (lit "549")) (
                                field (lit "text") (object (field (lit "body") (str said) done))
                                  (field (lit "id") (str (lit "m1")) done))))))
                        done)))
                  done)))
            done)))
      done)

abbrev pub reads : List ℕ → Result Value
reads body = ok (delivery body)

abbrev pub hola : Text
hola = lit "red"

abbrev pub secret : Text
secret = lit "key"

abbrev pub header : Text
header = signed digest secret hola

abbrev heard_hola : List InboundMessage
heard_hola =
    record {
      tenant_id = lit "t1";
      from_number = lit "549";
      text = hola;
      message_id = lit "m1";
      received_at = 7;
    }
    ∷ []

digest-is_ascii : is_ascii (digest secret hola) ≡ true
unfolding decimal
digest-is_ascii = refl

signed_hola : verify_signature digest secret hola header ≡ ok true
signed_hola = verify_signature_complete digest secret hola digest-is_ascii

phone_of_hola : extract_phone_number_id (delivery hola) ≡ ok (some (lit "555"))
unfolding extract_phone_number_id entry_phone change_phone first_some get iterate find_field ◌==◌
phone_of_hola = refl

tenant_of_hola : try_resolve (lit "555") shop_app.fleet.repo ≡ some shop
unfolding try_resolve by_phone_number_id ◌==◌
tenant_of_hola = refl

messages_of_hola : parse_messages ascii (lit "t1") 7 (delivery hola) ≡ ok heard_hola
unfolding parse_messages read_entry read_change read_message get iterate find_field traverse flatten
    is_text to_text ◌==◌
messages_of_hola = refl

abbrev received : Result Response × App Outbox Unit
received =
    webhook_receive ascii (in_memory_gateway hex) (echo_llm echo_template) digest reads secret 7
      hola header shop_app

webhook_receive-IsDelivered_example :
    (received.0 ≡ ok (response 200 (lit "received 1 for shop")))
    × IsDelivered shop heard_hola shop_app received.1
unfolding decimal
webhook_receive-IsDelivered_example =
    webhook_receive-IsDelivered ascii hex (echo_llm echo_template) digest reads secret 7 hola header
      (lit "555") (delivery hola) shop heard_hola shop_app signed_hola refl phone_of_hola
      tenant_of_hola messages_of_hola

not_of_shop : (n : Text) → buyer_id_for (lit "shop") n ≢ lit "bakery:549"
unfolding buyer_id_for
not_of_shop n e = ground arith

webhook_receive-others_example :
    bucket (lit "bakery:549") received.1.memory ≡ bucket (lit "bakery:549") shop_app.memory
webhook_receive-others_example =
    webhook_receive-others ascii hex (echo_llm echo_template) digest reads secret 7 hola header
      (lit "555") (delivery hola) shop heard_hola shop_app (lit "bakery:549") signed_hola refl
      phone_of_hola tenant_of_hola messages_of_hola not_of_shop

abbrev forged : Result Response × App Outbox Unit
forged =
    webhook_receive ascii (in_memory_gateway hex) (echo_llm echo_template) digest reads secret 7
      hola (lit "sha256=7") shop_app

not_signed : lit "sha256=7" ≢ signed digest secret hola
unfolding decimal
not_signed e = ground arith

webhook_receive_unsigned_example :
    (forged.1 ≡ shop_app)
    × ((forged.0 ≡ ok (response 401 (lit "invalid signature")))
        ⊎ ((m : Text) × (forged.0 ≡ err (type_error m))))
webhook_receive_unsigned_example =
    webhook_receive_unsigned ascii (in_memory_gateway hex) (echo_llm echo_template) digest reads
      secret 7 hola (lit "sha256=7") shop_app not_signed
