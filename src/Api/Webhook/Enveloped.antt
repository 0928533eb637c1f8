-- ===== src/Api/Webhook/Enveloped.antt =====
-- `webhook_receive` on a signed body that is Meta's envelope.
use mathlib.Core.List.{flatten}
use whatsapp_sales_saas_temp.Api.App.{App, Response}
use whatsapp_sales_saas_temp.Api.Webhook.{found_tenant, response, webhook_receive}
use whatsapp_sales_saas_temp.Api.Webhook.Delivery.{IsDelivered}
use whatsapp_sales_saas_temp.Api.Webhook.Outcome.{webhook_receive-IsDelivered}
use whatsapp_sales_saas_temp.Api.Webhook.Unrouted.{webhook_receive_unrouted}
use whatsapp_sales_saas_temp.Llm.{LlmPort}
use whatsapp_sales_saas_temp.Models.{Tenant}
use whatsapp_sales_saas_temp.Prelude.{
  List, Option, Option-cases, Text, [], ap, decimal, inl, inr, length, lit, none, refl, some, true,
  ℕ, ◌++◌, ◌∙◌, ◌≡◌,
}
use whatsapp_sales_saas_temp.Result.{Result, ok}
use whatsapp_sales_saas_temp.Tenant.Router.{try_resolve}
use whatsapp_sales_saas_temp.Unicode.{Unicode}
use whatsapp_sales_saas_temp.Value.{Value}
use whatsapp_sales_saas_temp.Whatsapp.Envelope.{Envelope, IsEnvelope, first_phone, text_messages}
use whatsapp_sales_saas_temp.Whatsapp.Envelope.Read.{envelope_read}
use whatsapp_sales_saas_temp.Whatsapp.Gateway.{Outbox, in_memory_gateway}
use whatsapp_sales_saas_temp.Whatsapp.Webhook.{verify_signature}

module _ {L : Type 0} (u : Unicode) (hex : ℕ → Text) (llm : LlmPort L)
    (hmac_hex : Text → List ℕ → Text) (parse_json : List ℕ → Result Value) (app_secret : Text) where
  -- By the tenant that the envelope's first number is routed to.
  abbrev pub Handled :
      ℕ → Envelope → App Outbox L → Option Tenant → Result Response × App Outbox L → Type 0
  Handled now es a none out =
      out ≡ (ok (response 200 (lit "no tenant for this phone_number_id")), a)
  Handled now es a (some t) (r, a') =
      (r
        ≡ ok (
            response 200 (
              lit "received "
              ++ (decimal (length (text_messages t.id now es)) ++ (lit " for " ++ t.slug)))))
      × IsDelivered t (text_messages t.id now es) a a'

  -- A signed request whose body is JSON for an envelope, its fields in any order and any others besides,
  -- with the in-memory gateway and any model:
  -- where no tenant has the first number that is not empty, or there is none, it is answered with 200
  -- and changes nothing; otherwise it is answered with 200 and the number of the envelope's text
  -- messages, and exactly these are delivered to the tenant, in order.
  pub webhook_receive-Handled :
      (now : ℕ) (body : List ℕ) (header : Text) (v : Value) (es : Envelope) (a : App Outbox L)
      → verify_signature hmac_hex app_secret body header ≡ ok true
      → parse_json body ≡ ok v
      → IsEnvelope v es
      → Handled now es a
          (found_tenant u (in_memory_gateway hex) llm (first_phone (flatten es)) a.fleet.repo)
          (webhook_receive u
            (in_memory_gateway hex)
            llm
            hmac_hex
            parse_json
            app_secret
            now
            body
            header
            a)
  webhook_receive-Handled now body header v es a w j i =
      elim (Option-cases (first_phone (flatten es))) [
        | inl n ↦ rw n (
            webhook_receive_unrouted u (in_memory_gateway hex) llm hmac_hex parse_json app_secret
              now body header v none a w j ((envelope_read u [] now v es i).1 ∙ ap ok n) refl)
        | inr (phone, e) ↦ elim (Option-cases (try_resolve phone a.fleet.repo)) [
          | inl n ↦ rw e (
              rw n (
                webhook_receive_unrouted u (in_memory_gateway hex) llm hmac_hex parse_json
                  app_secret now body header v (some phone) a w j
                  ((envelope_read u [] now v es i).1 ∙ ap ok e) n))
          | inr (t, f) ↦ rw e (
              rw f (
                webhook_receive-IsDelivered u hex llm hmac_hex parse_json app_secret now body header
                  phone v t (text_messages t.id now es) a w j
                  ((envelope_read u t.id now v es i).1 ∙ ap ok e) f
                  (envelope_read u t.id now v es i).0))
        ]
      ]
