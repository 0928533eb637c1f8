-- ===== src/Api/Webhook/Outcome.antt =====
-- The whole `webhook_receive`, on signed requests.
use whatsapp_sales_saas_temp.Api.App.{App, Response, buyer_id_for}
use whatsapp_sales_saas_temp.Api.Webhook.{response, webhook_receive}
use whatsapp_sales_saas_temp.Api.Webhook.Delivery.{
  IsDelivered, dialogue, line_of, receive_all-IsDelivered,
}
use whatsapp_sales_saas_temp.Exec.{Exec}
use whatsapp_sales_saas_temp.Llm.{LlmPort}
use whatsapp_sales_saas_temp.Memory.{BuyerInteraction, Memory, bucket, remember}
use whatsapp_sales_saas_temp.Memory.History.{bucket-remember, remember_all}
use whatsapp_sales_saas_temp.Models.{InboundMessage, Tenant}
use whatsapp_sales_saas_temp.Prelude.{
  All, List, Text, [], ap, arith, decimal, eq_iff, length, lit, map, refl, some, subst, sym, true,
  ℕ, ◌++◌, ◌∙◌, ◌∷◌, ◌≡◌, ◌≢◌,
}
use whatsapp_sales_saas_temp.Result.{Result, ok}
use whatsapp_sales_saas_temp.Tenant.Router.{try_resolve}
use whatsapp_sales_saas_temp.Unicode.{Unicode}
use whatsapp_sales_saas_temp.Value.{Value}
use whatsapp_sales_saas_temp.Whatsapp.Gateway.{OutboundMessage, Outbox, in_memory_gateway}
use whatsapp_sales_saas_temp.Whatsapp.Webhook.{
  extract_phone_number_id, parse_messages, verify_signature,
}

-- What another conversation sees: nothing.
remember_all-other :
    (b : Text) (log : List (Text × BuyerInteraction)) (m : Memory)
    → All (λ e. e.0 ≢ b) log
    → bucket b (remember_all log m) ≡ bucket b m
unfolding remember_all
remember_all-other b [] m h = refl
remember_all-other b ((k, x) ∷ log) m h =
    remember_all-other b log (remember k x m) h.1
    ∙ ground (arith, bucket-remember k x m b, eq_iff k b)

-- The dialogue goes to the senders' buyer ids.
dialogue-others :
    (tenant : Tenant) (b : Text) (ms : List InboundMessage) (outs : List OutboundMessage)
    → ((m : InboundMessage) → buyer_id_for tenant.slug m.from_number ≢ b)
    → All (λ l. l.to ≢ b) (dialogue tenant ms outs)
dialogue-others tenant b [] outs h = tt
dialogue-others tenant b (m ∷ ms) [] h = tt
dialogue-others tenant b (m ∷ ms) (o ∷ os) h = (h m, (h m, dialogue-others tenant b ms os h))

lines-others :
    (b : Text) (log : List (Text × BuyerInteraction))
    → All (λ l. l.to ≢ b) (map line_of log)
    → All (λ e. e.0 ≢ b) log
lines-others b [] h = tt
lines-others b (x ∷ log) h = (h.0, lines-others b log h.1)

module _ {L : Type 0} (u : Unicode) (hex : ℕ → Text) (llm : LlmPort L)
    (hmac_hex : Text → List ℕ → Text) (parse_json : List ℕ → Result Value) (app_secret : Text) where
  abbrev receive : ℕ → List ℕ → Text → Exec (App Outbox L) Response
  receive = webhook_receive u (in_memory_gateway hex) llm hmac_hex parse_json app_secret

  -- A signed request whose body is JSON, names a known phone number and parses into `ms`, with the
  -- in-memory gateway: whatever the model does, raising included, the handler answers 200 and
  -- delivers.
  pub webhook_receive-IsDelivered :
      (now : ℕ) (body : List ℕ) (header phone : Text) (payload : Value) (tenant : Tenant)
      (ms : List InboundMessage) (a : App Outbox L)
      → verify_signature hmac_hex app_secret body header ≡ ok true
      → parse_json body ≡ ok payload
      → extract_phone_number_id payload ≡ ok (some phone)
      → try_resolve phone a.fleet.repo ≡ some tenant
      → parse_messages u tenant.id now payload ≡ ok ms
      → let (r, a') = receive now body header a in
        (r
          ≡ ok (
              response 200
                (lit "received " ++ (decimal (length ms) ++ (lit " for " ++ tenant.slug)))))
        × IsDelivered tenant ms a a'
  unfolding webhook_receive
  webhook_receive-IsDelivered now body header phone payload tenant ms a v j x t p =
      let (fine, d) = receive_all-IsDelivered u hex llm now tenant ms a in
      rw v (rw j (rw x (rw t (rw p (rw fine (refl, d))))))

  -- A signed request whose body is JSON, names a known phone number and parses into `ms`, with the
  -- in-memory gateway and any model: what is remembered of a buyer id that is not one of the tenant's
  -- stays as it was.
  pub webhook_receive-others :
      (now : ℕ) (body : List ℕ) (header phone : Text) (payload : Value) (tenant : Tenant)
      (ms : List InboundMessage) (a : App Outbox L) (b : Text)
      → verify_signature hmac_hex app_secret body header ≡ ok true
      → parse_json body ≡ ok payload
      → extract_phone_number_id payload ≡ ok (some phone)
      → try_resolve phone a.fleet.repo ≡ some tenant
      → parse_messages u tenant.id now payload ≡ ok ms
      → ((n : Text) → buyer_id_for tenant.slug n ≢ b)
      → bucket b (receive now body header a).1.memory ≡ bucket b a.memory
  webhook_receive-others now body header phone payload tenant ms a b v j x t p h =
      let (fine, d) =
        webhook_receive-IsDelivered now body header phone payload tenant ms a v j x t p in
      ap (bucket b) d.remembered
      ∙ remember_all-other b d.log a.memory (
          lines-others b d.log (
            subst (λ ls. All (λ l. l.to ≢ b) ls) (sym d.told)
              (dialogue-others tenant b ms d.outs (λ m. h m.from_number))))
