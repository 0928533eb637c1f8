-- ===== src/Whatsapp/Gateway.antt =====
-- src/sample/whatsapp/gateway.py: the port and the in-memory adapter.
use whatsapp_sales_saas_temp.Exec.{Exec}
use whatsapp_sales_saas_temp.Prelude.{
  List, Option, Text, [], length, lit, none, some, take, ℕ, ◌++◌, ◌∷◌,
}
use whatsapp_sales_saas_temp.Result.{ok}

pub data MessageKind : Type 0 where
  text template : MessageKind

pub record OutboundMessage : Type 0 where
  pub to_number : Text
  pub body : Text
  pub kind : MessageKind
  pub tenant_id : Option Text
  pub template_id : Option Text
  pub template_params : List (Text × Text)
  pub sent_at : ℕ
  pub vendor_message_id : Option Text
  pub metadata : List (Text × Text)

-- `WhatsAppGatewayPort`; `S` is the adapter's state, and the number is the instant of the call.
pub record GatewayPort (S : Type 0) : Type 0 where
  pub send_text : ℕ → Text → Text → Option Text → Exec S OutboundMessage
  pub send_template : ℕ → Text → Text → List (Text × Text) → Option Text → Exec S OutboundMessage

-- `InMemoryGateway`; `hex n` is `uuid.uuid4().hex` at the call number `n`.
pub record Outbox : Type 0 where
  pub sent : List OutboundMessage

abbrev pub mem_id : (ℕ → Text) → Outbox → Option Text
mem_id hex o = some (lit "mem-" ++ take 12 (hex (length o.sent)))

abbrev pub text_message : ℕ → Text → Text → Option Text → Option Text → OutboundMessage
text_message now to_number body tenant_id vendor_id = record {
  to_number = to_number;
  body = body;
  kind = text;
  tenant_id = tenant_id;
  template_id = none;
  template_params = [];
  sent_at = now;
  vendor_message_id = vendor_id;
  metadata = [];
}

abbrev pub template_message :
    ℕ → Text → Text → List (Text × Text) → Option Text → Option Text → OutboundMessage
template_message now to_number template_id params tenant_id vendor_id = record {
  to_number = to_number;
  body = lit "[template:" ++ (template_id ++ lit "]");
  kind = template;
  tenant_id = tenant_id;
  template_id = some template_id;
  template_params = params;
  sent_at = now;
  vendor_message_id = vendor_id;
  metadata = [];
}

abbrev pub deliver : OutboundMessage → Exec Outbox OutboundMessage
deliver m o = (ok m, record { sent = o.sent ++ m ∷ [] })

abbrev pub in_memory_gateway : (ℕ → Text) → GatewayPort Outbox
in_memory_gateway hex = record {
  send_text = λ now to_number body tenant_id o.
      deliver (text_message now to_number body tenant_id (mem_id hex o)) o;
  send_template = λ now to_number template_id params tenant_id o.
      deliver (template_message now to_number template_id params tenant_id (mem_id hex o)) o;
}
