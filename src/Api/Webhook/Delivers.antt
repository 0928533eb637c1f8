-- ===== src/Api/Webhook/Delivers.antt =====
-- Any request, with the in-memory gateway: it changes nothing, or it delivers to one tenant.
use whatsapp_sales_saas_temp.Api.App.{App}
use whatsapp_sales_saas_temp.Api.Webhook.{dispatch, webhook_receive}
use whatsapp_sales_saas_temp.Api.Webhook.Delivery.{IsDelivered}
use whatsapp_sales_saas_temp.Api.Webhook.Outcome.{webhook_receive-IsDelivered}
use whatsapp_sales_saas_temp.Llm.{LlmPort}
use whatsapp_sales_saas_temp.Models.{InboundMessage, Tenant}
use whatsapp_sales_saas_temp.Prelude.{
  List, Option, Option-cases, Text, false, inl, inr, none, refl, some, true, ℕ, ◌≡◌, ◌⊎◌,
}
use whatsapp_sales_saas_temp.Result.{Result, Result-cases, ok}
use whatsapp_sales_saas_temp.Tenant.Router.{try_resolve}
use whatsapp_sales_saas_temp.Unicode.{Unicode}
use whatsapp_sales_saas_temp.Value.{Value}
use whatsapp_sales_saas_temp.Whatsapp.Gateway.{Outbox, in_memory_gateway}
use whatsapp_sales_saas_temp.Whatsapp.Webhook.{
  extract_phone_number_id, parse_messages, verify_signature,
}

module _ {L : Type 0} (u : Unicode) (hex : ℕ → Text) (llm : LlmPort L)
    (hmac_hex : Text → List ℕ → Text) (parse_json : List ℕ → Result Value) (app_secret : Text) where
  abbrev after : ℕ → List ℕ → Text → App Outbox L → App Outbox L
  after now body header a =
      (webhook_receive u (in_memory_gateway hex) llm hmac_hex parse_json app_secret now body header
        a).1

  pub record Delivers (a a' : App Outbox L) : Type 0 where
    pub phone : Text
    pub tenant : Tenant
    pub messages : List InboundMessage
    pub routed : try_resolve phone a.fleet.repo ≡ some tenant
    pub delivered : IsDelivered tenant messages a a'

  signed-Delivers :
      (now : ℕ) (body : List ℕ) (header : Text) (a : App Outbox L) (payload : Value)
      (phone : Option Text)
      → verify_signature hmac_hex app_secret body header ≡ ok true
      → parse_json body ≡ ok payload
      → extract_phone_number_id payload ≡ ok phone
      → (after now body header a ≡ a) ⊎ Delivers a (after now body header a)
  unfolding webhook_receive dispatch
  signed-Delivers now body header a payload none v j x = rw (v, after) (rw j (rw x (inl refl)))
  signed-Delivers now body header a payload (some phone) v j x =
      elim (Option-cases (try_resolve phone a.fleet.repo)) [
        | inl n ↦ rw (v, after) (rw j (rw x (rw n (inl refl))))
        | inr (t, e) ↦ elim (Result-cases (parse_messages u t.id now payload)) [
          | inr (z, p) ↦ rw (v, after) (rw j (rw x (rw e (rw p (inl refl)))))
          | inl (ms, p) ↦ inr (record {
            phone = phone;
            tenant = t;
            messages = ms;
            routed = e;
            delivered =
                (webhook_receive-IsDelivered u hex llm hmac_hex parse_json app_secret now body
                  header phone payload t ms a v j x e p).1;
          })
        ]
      ]

  pub webhook_receive-Delivers :
      (now : ℕ) (body : List ℕ) (header : Text) (a : App Outbox L)
      → (after now body header a ≡ a) ⊎ Delivers a (after now body header a)
  unfolding webhook_receive
  webhook_receive-Delivers now body header a =
      elim (Result-cases (verify_signature hmac_hex app_secret body header)) [
        | inr (z, v) ↦ rw (v, after) (inl refl)
        | inl (false, v) ↦ rw (v, after) (inl refl)
        | inl (true, v) ↦ elim (Result-cases (parse_json body)) [
          | inr (z, j) ↦ rw (v, after) (rw j (inl refl))
          | inl (payload, j) ↦ elim (Result-cases (extract_phone_number_id payload)) [
            | inr (z, x) ↦ rw (v, after) (rw j (rw x (inl refl)))
            | inl (phone, x) ↦ signed-Delivers now body header a payload phone v j x
          ]
        ]
      ]
