-- ===== src/Api/Webhook.antt =====
-- `webhook_verify` and `webhook_receive` of services/api/main.py. The environment's secrets, the body,
-- its HMAC and its JSON are arguments; `now` is the clock during the request. An exception that the
-- handler lets through is the result `err`, which the framework answers with a 500.
pub mod Signed
pub mod Delivery
pub mod Outcome
pub mod Delivers
pub mod Enveloped
pub mod Shown
pub mod Tasks
pub mod Undelivered
pub mod Unrouted
use whatsapp_sales_saas_temp.Memory.{Role as Speaker}
use whatsapp_sales_saas_temp.Agent.Loop.{AgentTurn, default_limits, respond}
use whatsapp_sales_saas_temp.Api.App.{App, Response, buyer_id_for, in_gateway, in_llm, remembering}
use whatsapp_sales_saas_temp.Exec.{Exec, catch, gets, lift, pure, ◌>>=◌, ◌>>◌}
use whatsapp_sales_saas_temp.Llm.{LlmPort}
use whatsapp_sales_saas_temp.Memory.{BuyerInteraction, agent, buyer}
use whatsapp_sales_saas_temp.Models.{InboundMessage, Tenant}
use whatsapp_sales_saas_temp.Prelude.{
  List, Option, Text, [], decimal, if◌then◌else◌, length, lit, none, some, take, ℕ, ◌++◌, ◌∷◌,
}
use whatsapp_sales_saas_temp.Result.{Error, Result, map_ok, message, ok}
use whatsapp_sales_saas_temp.Tenant.Repository.{Repository}
use whatsapp_sales_saas_temp.Tenant.Router.{try_resolve}
use whatsapp_sales_saas_temp.Unicode.{Unicode}
use whatsapp_sales_saas_temp.Value.{Value}
use whatsapp_sales_saas_temp.Whatsapp.Gateway.{GatewayPort, text}
use whatsapp_sales_saas_temp.Whatsapp.Webhook.{
  extract_phone_number_id, parse_messages, verify_signature, verify_subscription,
}

abbrev pub response : ℕ → Text → Response
response status_code content = record { status_code = status_code; content = content }

unfoldable pub webhook_verify : Text → Text → Text → Text → Result Response
webhook_verify verify_token mode token challenge =
    map_ok (λ r. elim r [ none ↦ response 403 (lit "forbidden") | some c ↦ response 200 c ])
      (verify_subscription verify_token mode token challenge)

abbrev pub interaction : ℕ → Speaker → Text → List (Text × Text) → BuyerInteraction
interaction now role said metadata = record {
  text = said;
  role = role;
  at = now;
  metadata = metadata;
}

-- What the agent answered, with the metadata that is kept beside it.
pub record Answer : Type 0 where
  pub reply : Text
  pub meta : List (Text × Text)

abbrev pub apology : Text
apology = lit "Tuvimos un inconveniente procesando tu mensaje. Te respondemos en unos minutos."

abbrev pub answer_of : AgentTurn → Answer
answer_of turn = record {
  reply = turn.reply;
  meta =
      (lit "model", turn.model)
      ∷ (lit "facts_cited", decimal (length turn.facts_cited))
      ∷ (lit "history_used", decimal turn.history_used)
      ∷ [];
}

abbrev pub answer_failed : Unicode → Error → Answer
answer_failed u e = record {
  reply = apology;
  meta = (lit "error", take 200 (message u.repr e)) ∷ [];
}

-- `sent.vendor_message_id or ""`
abbrev pub id_or_empty : Option Text → Text
id_or_empty none = []
id_or_empty (some s) = s

module _ {G L : Type 0} (u : Unicode) (gateway : GatewayPort G) (llm : LlmPort L) where
  -- The agent loop inside `try: … except Exception`.
  unfoldable pub answer : Tenant → Text → Text → Exec (App G L) Answer
  answer tenant bid said =
      catch
        (do
          memory ← gets (λ a. a.memory)
          facts ← gets (λ a. a.hindsight)
          turn ← in_llm (respond u llm default_limits memory facts tenant bid said none)
          pure (answer_of turn))
        (λ e. pure (answer_failed u e))

  -- The loop's body.
  unfoldable pub receive_message : ℕ → Tenant → InboundMessage → Exec (App G L) Unit
  unfolding answer
  receive_message now tenant msg = do
    let bid = buyer_id_for tenant.slug msg.from_number
    remembering bid (
        interaction now buyer msg.text
          ((lit "tenant_id", tenant.id) ∷ (lit "message_id", msg.message_id) ∷ []))
    a ← answer tenant bid msg.text
    sent ← in_gateway (gateway.send_text now msg.from_number a.reply (some tenant.id))
    remembering bid (
        interaction now agent a.reply
          ((lit "vendor_message_id", id_or_empty sent.vendor_message_id) ∷ a.meta))

  unfoldable pub receive_all : ℕ → Tenant → List InboundMessage → Exec (App G L) Unit
  unfolding receive_message
  receive_all now tenant [] s = (ok tt, s)
  receive_all now tenant (m ∷ ms) s =
      let rest = receive_all now tenant ms in (receive_message now tenant m >> rest) s

  abbrev pub found_tenant : Option Text → Repository → Option Tenant
  found_tenant none r = none
  found_tenant (some phone) r = try_resolve phone r

  unfoldable pub dispatch : ℕ → Value → Option Tenant → Exec (App G L) Response
  unfolding receive_all
  dispatch now payload none = pure (response 200 (lit "no tenant for this phone_number_id"))
  dispatch now payload (some tenant) = do
    messages ← lift (parse_messages u tenant.id now payload)
    receive_all now tenant messages
    pure (
        response 200
          (lit "received " ++ (decimal (length messages) ++ (lit " for " ++ tenant.slug))))

  module _ (hmac_hex : Text → List ℕ → Text) (parse_json : List ℕ → Result Value)
      (app_secret : Text) where
    unfoldable pub webhook_receive : ℕ → List ℕ → Text → Exec (App G L) Response
    unfolding dispatch
    webhook_receive now body signature = do
      valid ← lift (verify_signature hmac_hex app_secret body signature)
      if valid
          then (do
            payload ← lift (parse_json body)
            phone ← lift (extract_phone_number_id payload)
            tenant ← gets (λ a. found_tenant phone a.fleet.repo)
            dispatch now payload tenant)
          else pure (response 401 (lit "invalid signature"))
