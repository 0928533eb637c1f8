-- ===== src/Tests/Envelopes.antt =====
-- An envelope of Meta's: a receipt, an image and a text.
use mathlib.Core.List.{flatten}
use whatsapp_sales_saas_temp.Agent.Loop.{system_parts}
use whatsapp_sales_saas_temp.Agent.Soul.{build, newline}
use whatsapp_sales_saas_temp.Api.App.{App, Response}
use whatsapp_sales_saas_temp.Api.Webhook.{found_tenant, receive_message, webhook_receive}
use whatsapp_sales_saas_temp.Api.Webhook.Enveloped.{Handled, webhook_receive-Handled}
use whatsapp_sales_saas_temp.Api.Webhook.Shown.{shown, user_says}
use whatsapp_sales_saas_temp.Api.Webhook.Signed.{verify_signature_complete}
use whatsapp_sales_saas_temp.Dict.{lookup}
use whatsapp_sales_saas_temp.Hindsight.{query}
use whatsapp_sales_saas_temp.Llm.{Role, Script, echo_llm, echo_template, scripted_llm}
use whatsapp_sales_saas_temp.Memory.{bucket, empty_memory}
use whatsapp_sales_saas_temp.Models.{InboundMessage}
use whatsapp_sales_saas_temp.Prelude.{
  List, Text, [], arith, decimal, join, lit, none, pos, refl, some, true, ℕ, ◌++◌, ◌==◌, ◌∷◌, ◌≡◌,
  ◌≢◌,
}
use whatsapp_sales_saas_temp.Result.{Result, ok}
use whatsapp_sales_saas_temp.Tests.Requests.{digest, header, hex, hola, secret}
use whatsapp_sales_saas_temp.Tests.Shop.{facts, shop, shop_app, shop_fleet}
use whatsapp_sales_saas_temp.Unicode.{ascii}
use whatsapp_sales_saas_temp.Value.{
  Fields, Value, Values, array, cons, done, field, find_field, nil, object, str,
}
use whatsapp_sales_saas_temp.Whatsapp.Envelope.{
  Each, Envelope, IsEnvelope, IsItem, a_text, an_entry, an_envelope, an_item, another_kind, brings,
  first_phone, for_nobody, is_for, no_item, notice, other_item, text_item, text_messages,
  with_messages, without_messages,
}
use whatsapp_sales_saas_temp.Whatsapp.Envelope.Read.{envelope_read}
use whatsapp_sales_saas_temp.Whatsapp.Gateway.{Outbox, in_memory_gateway}
use whatsapp_sales_saas_temp.Whatsapp.Webhook.{
  extract_phone_number_id, parse_messages, verify_signature,
}

image_kind : lit "image" ≢ lit "text"
image_kind e = ground arith

abbrev fields : List (Text × Value) → Fields
fields [] = done
fields ((k, v) ∷ rest) = field k v (fields rest)

abbrev object_of : List (Text × Value) → Value
object_of fs = object (fields fs)

abbrev metadata : Value
metadata = object_of (
    (lit "display_phone_number", str (lit "+1 555"))
    ∷ (lit "phone_number_id", str (lit "555"))
    ∷ [])

abbrev receipt : Value
receipt = object_of (
    (
      lit "value",
      object_of (
          (lit "messaging_product", str (lit "whatsapp"))
          ∷ (lit "metadata", metadata)
          ∷ (lit "statuses", array nil)
          ∷ []),
    )
    ∷ (lit "field", str (lit "messages"))
    ∷ [])

abbrev two_items : Values
two_items =
    cons
      (object_of (
        (lit "from", str (lit "549"))
        ∷ (lit "id", str (lit "m1"))
        ∷ (lit "timestamp", str (lit "7"))
        ∷ (lit "text", object_of ((lit "body", str (lit "red")) ∷ []))
        ∷ (lit "type", str (lit "text"))
        ∷ []))
      (cons (object_of ((lit "type", str (lit "image")) ∷ (lit "from", str (lit "549")) ∷ [])) nil)

abbrev unnumbered_messages : Value
unnumbered_messages =
    object_of ((lit "value", object_of ((lit "messages", array two_items) ∷ [])) ∷ [])

abbrev meta_body : Value
meta_body = object_of (
    (lit "object", str (lit "whatsapp_business_account"))
    ∷ (
      lit "entry",
      array (
          cons
            (object_of (
              (lit "id", str (lit "1"))
              ∷ (lit "changes", array (cons unnumbered_messages (cons receipt nil)))
              ∷ []))
            nil),
    )
    ∷ [])

abbrev from_meta : Envelope
from_meta =
    (brings [] (text_item (lit "549") (lit "red") (lit "m1") ∷ other_item ∷ [])
      ∷ notice (lit "555")
      ∷ [])
    ∷ []

items_read : Each IsItem two_items (text_item (lit "549") (lit "red") (lit "m1") ∷ other_item ∷ [])
unfolding find_field ◌==◌
items_read =
    an_item (a_text refl refl refl refl refl) (an_item (another_kind refl image_kind) no_item)

meta_body-IsEnvelope : IsEnvelope meta_body from_meta
unfolding find_field ◌==◌
meta_body-IsEnvelope = an_envelope refl (
    an_item
      (an_entry refl (
        an_item (with_messages refl (for_nobody refl) refl items_read)
          (an_item (without_messages refl (is_for refl refl) refl) no_item)))
      no_item)

envelope_read_example :
    (parse_messages ascii (lit "t1") 7 meta_body ≡ ok (text_messages (lit "t1") 7 from_meta))
    × (extract_phone_number_id meta_body ≡ ok (first_phone (flatten from_meta)))
envelope_read_example = envelope_read ascii (lit "t1") 7 meta_body from_meta meta_body-IsEnvelope

abbrev reads_meta : List ℕ → Result Value
reads_meta body = ok meta_body

signed_meta : verify_signature digest secret hola header ≡ ok true
unfolding decimal
signed_meta = verify_signature_complete digest secret hola refl

abbrev handled : Result Response × App Outbox Unit
handled =
    webhook_receive ascii (in_memory_gateway hex) (echo_llm echo_template) digest reads_meta secret
      7 hola header shop_app

webhook_receive-Handled_example :
    Handled ascii hex
      (echo_llm echo_template)
      digest
      reads_meta
      secret
      7
      from_meta
      shop_app
      (found_tenant ascii
        (in_memory_gateway hex)
        (echo_llm echo_template)
        (first_phone (flatten from_meta))
        shop_app.fleet.repo)
      handled
webhook_receive-Handled_example =
    webhook_receive-Handled ascii hex (echo_llm echo_template) digest reads_meta secret 7 hola
      header meta_body from_meta shop_app signed_meta refl meta_body-IsEnvelope

abbrev pub scripted_app : App Outbox Script
scripted_app = record {
  fleet = shop_fleet;
  hindsight = facts;
  memory = empty_memory;
  gateway = record { sent = [] };
  llm = record { replies = []; calls = [] };
}

abbrev pub greeting : InboundMessage
greeting = record {
  tenant_id = lit "t1";
  from_number = lit "549";
  text = hola;
  message_id = lit "m1";
  received_at = 7;
}

abbrev prompted : App Outbox Script
prompted =
    (receive_message ascii (in_memory_gateway hex) scripted_llm 7 shop greeting scripted_app).1

abbrev completed : Script
completed =
    (scripted_llm.complete (shown ascii shop greeting scripted_app) shop.model 512 40
      scripted_app.llm).1

-- What the recording model recorded of it.
completed_calls :
    completed.calls
    ≡ (record {
      role = Role.system;
      content =
          join
            (newline ++ newline)
            (system_parts (build shop none) (query ascii hola (some (lit "t1")) (pos 5) facts));
    }
        ∷ user_says hola
        ∷ user_says hola
        ∷ [])
      ∷ []
unfolding bucket lookup
completed_calls = refl
