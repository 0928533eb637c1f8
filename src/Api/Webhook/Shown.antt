-- ===== src/Api/Webhook/Shown.antt =====
-- What the model is shown of a message that the webhook receives.
use whatsapp_sales_saas_temp.Agent.Loop.{replayed, system_parts}
use whatsapp_sales_saas_temp.Agent.Soul.{build, newline}
use whatsapp_sales_saas_temp.Api.App.{App, buyer_id_for}
use whatsapp_sales_saas_temp.Hindsight.{query}
use whatsapp_sales_saas_temp.Llm.{LlmMessage, Role}
use whatsapp_sales_saas_temp.Memory.{Memory, bucket}
use whatsapp_sales_saas_temp.Models.{InboundMessage, Tenant}
use whatsapp_sales_saas_temp.Prelude.{
  List, Text, [], join, map, none, pos, some, take_last, ◌++◌, ◌∷◌,
}
use whatsapp_sales_saas_temp.Unicode.{Unicode}

abbrev pub user_says : Text → LlmMessage
user_says said = record { role = Role.user; content = said }

-- What the model is given to complete: the system prompt of the SOUL and the facts that the message's text
-- finds, the last five entries that were remembered of the conversation before, and the new message, twice.
abbrev pub shown : {G L : Type 0} → Unicode → Tenant → InboundMessage → App G L → List LlmMessage
shown u tenant m a =
    record {
      role = Role.system;
      content =
          join (newline ++ newline) (
            system_parts (build tenant none) (query u m.text (some tenant.id) (pos 5) a.hindsight));
    }
    ∷ (map replayed (take_last 5 (bucket (buyer_id_for tenant.slug m.from_number) a.memory))
        ++ user_says m.text ∷ user_says m.text ∷ [])
