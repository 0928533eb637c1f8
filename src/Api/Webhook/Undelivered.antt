-- ===== src/Api/Webhook/Undelivered.antt =====
-- What a request leaves behind when the gateway raises.
use whatsapp_sales_saas_temp.Agent.Loop.{default_limits, respond}
use whatsapp_sales_saas_temp.Api.App.{App, buyer_id_for}
use whatsapp_sales_saas_temp.Api.Webhook.{answer, interaction, receive_all, receive_message}
use whatsapp_sales_saas_temp.Api.Webhook.Delivery.{settled}
use whatsapp_sales_saas_temp.Llm.{LlmPort}
use whatsapp_sales_saas_temp.Memory.{BuyerInteraction, buyer, remember}
use whatsapp_sales_saas_temp.Models.{InboundMessage, Tenant}
use whatsapp_sales_saas_temp.Prelude.{List, Text, [], inl, inr, lit, none, refl, some, ℕ, ◌∷◌, ◌≡◌}
use whatsapp_sales_saas_temp.Result.{Error, Result-cases, err, ok}
use whatsapp_sales_saas_temp.Unicode.{Unicode}
use whatsapp_sales_saas_temp.Whatsapp.Gateway.{GatewayPort}

module _ {G L : Type 0} (u : Unicode) (gateway : GatewayPort G) (llm : LlmPort L) (now : ℕ)
    (tenant : Tenant) where
  answer-settled :
      (bid said : Text) (a : App G L)
      → let (r, s) = respond u llm default_limits a.memory a.hindsight tenant bid said none a.llm in
        answer u gateway llm tenant bid said a ≡ (ok (settled u r), record a { llm = s })
  unfolding answer
  answer-settled bid said a =
      elim (Result-cases
        (respond u llm default_limits a.memory a.hindsight tenant bid said none a.llm).0) [
          | inl (t, e) ↦ rw e refl
          | inr (x, e) ↦ rw e refl
        ]

  abbrev pub buyer_line : InboundMessage → BuyerInteraction
  buyer_line m =
      interaction now buyer m.text
        ((lit "tenant_id", tenant.id) ∷ (lit "message_id", m.message_id) ∷ [])

  -- A gateway that raises on every text, any model and any further messages: the handler's loop ends
  -- with the gateway's exception at the first message, which stays remembered without an answer.
  pub receive_all-undelivered :
      (m : InboundMessage) (ms : List InboundMessage) (a : App G L) (e : Error)
      → ((reply : Text) (g : G)
          → (gateway.send_text now m.from_number reply (some tenant.id) g).0 ≡ err e)
      → let (r, a') = receive_all u gateway llm now tenant (m ∷ ms) a in
        (r ≡ err e)
        × (a'.memory ≡ remember (buyer_id_for tenant.slug m.from_number) (buyer_line m) a.memory)
        × (a'.fleet ≡ a.fleet)
  unfolding receive_all receive_message
  receive_all-undelivered m ms a e h =
      let bid = buyer_id_for tenant.slug m.from_number in
      let a1 : App G L = record a { memory = remember bid (buyer_line m) a.memory } in
      let r = respond u llm default_limits a1.memory a1.hindsight tenant bid m.text none a1.llm in
      rw (answer-settled bid m.text a1) (rw (h (settled u r.0).reply a.gateway) (refl, refl, refl))
