-- ===== src/Api/Webhook/Tasks.antt =====
-- The loop of `webhook_receive` over the messages of several requests at once (services/api/main.py,
-- with `respond` of src/sample/agent/loop.py): each handler is a task that waits where its code awaits
-- the model, the gateway or the memory, and the event loop may go on with any other task meanwhile.
-- The code's `await` of an in-memory adapter does not wait; such a run is among those of this model.
pub mod Alone
pub mod Ledger
pub mod Accounts
pub mod Settled
use whatsapp_sales_saas_temp.Agent.Loop.{compose_prompt, default_limits, turn_of}
use whatsapp_sales_saas_temp.Api.App.{App, buyer_id_for}
use whatsapp_sales_saas_temp.Api.Webhook.{
  Answer, answer_failed, answer_of, id_or_empty, interaction,
}
use whatsapp_sales_saas_temp.Hindsight.{query}
use whatsapp_sales_saas_temp.Llm.{LlmPort, LlmReply, default_max_tokens, default_temperature}
use whatsapp_sales_saas_temp.Memory.{BuyerInteraction, agent, buyer, recall, remember}
use whatsapp_sales_saas_temp.Models.{Fact, InboundMessage, Tenant}
use whatsapp_sales_saas_temp.Prelude.{List, Text, [], lit, none, some, suc, zero, ℕ, ◌∷◌}
use whatsapp_sales_saas_temp.Result.{Error, Result, err, ok}
use whatsapp_sales_saas_temp.Unicode.{Unicode}
use whatsapp_sales_saas_temp.Whatsapp.Gateway.{GatewayPort, OutboundMessage}

-- Where a task waits, with the messages that are left: before the next message; for the model, with
-- what was recalled and found; for the gateway; to remember what was sent. A task that raised is gone.
pub data Phase : Type 0 where
  ready : (rest : List InboundMessage) → Phase
  asking :
      (m : InboundMessage) (history : List BuyerInteraction) (facts : List Fact)
      (rest : List InboundMessage)
      → Phase
  sending : (m : InboundMessage) (a : Answer) (rest : List InboundMessage) → Phase
  recording :
      (m : InboundMessage) (a : Answer) (s : OutboundMessage) (rest : List InboundMessage) → Phase
  gone : Error → Phase

pub record Task : Type 0 where
  pub now : ℕ
  pub tenant : Tenant
  pub phase : Phase

abbrev pub heard_entry : ℕ → Tenant → InboundMessage → Text × BuyerInteraction
heard_entry now tenant m = (
  buyer_id_for tenant.slug m.from_number,
  interaction now buyer m.text
      ((lit "tenant_id", tenant.id) ∷ (lit "message_id", m.message_id) ∷ []),
)

abbrev pub reply_entry :
    ℕ → Tenant → InboundMessage → Answer → OutboundMessage → Text × BuyerInteraction
reply_entry now tenant m a s = (
  buyer_id_for tenant.slug m.from_number,
  interaction now agent a.reply
      ((lit "vendor_message_id", id_or_empty s.vendor_message_id) ∷ a.meta),
)

abbrev pub answer_from : Unicode → List Fact → List BuyerInteraction → Result LlmReply → Answer
answer_from u facts history (ok reply) = answer_of (turn_of facts history reply)
answer_from u facts history (err e) = answer_failed u e

abbrev pub sent_or_gone :
    InboundMessage → Answer → List InboundMessage → Result OutboundMessage → Phase
sent_or_gone m a rest (ok s) = recording m a s rest
sent_or_gone m a rest (err e) = gone e

module _ {G L : Type 0} where
  abbrev pub remember_entry : Text × BuyerInteraction → App G L → App G L
  remember_entry (b, x) app = record app { memory = remember b x app.memory }

module _ {G L : Type 0} (u : Unicode) (gateway : GatewayPort G) (llm : LlmPort L) where
  -- From one wait to the next.
  unfoldable pub advance : ℕ → Tenant → Phase → App G L → Phase × App G L
  advance now tenant (ready []) app = (ready [], app)
  advance now tenant (ready (m ∷ rest)) app =
      let app' = remember_entry (heard_entry now tenant m) app in
      (
        asking m
            (recall (buyer_id_for tenant.slug m.from_number) (some default_limits.history_turns)
              app'.memory)
            (query u m.text (some tenant.id) default_limits.rag_top_k app.hindsight) rest,
        app',
      )
  advance now tenant (asking m history facts rest) app =
      let (r, l) =
        llm.complete (compose_prompt tenant history facts m.text none) tenant.model
          default_max_tokens default_temperature app.llm in
      (sending m (answer_from u facts history r) rest, record app { llm = l })
  advance now tenant (sending m a rest) app =
      let (r, g) = gateway.send_text now m.from_number a.reply (some tenant.id) app.gateway in
      (sent_or_gone m a rest r, record app { gateway = g })
  advance now tenant (recording m a s rest) app =
      (ready rest, remember_entry (reply_entry now tenant m a s) app)
  advance now tenant (gone e) app = (gone e, app)

  -- The event loop goes on with the task at an index; past the end it does nothing.
  unfoldable pub tick : ℕ → List Task → App G L → List Task × App G L
  unfolding advance
  tick i [] app = ([], app)
  tick zero (t ∷ ts) app =
      let (p, app') = advance t.now t.tenant t.phase app in (record t { phase = p } ∷ ts, app')
  tick (suc i) (t ∷ ts) app = let (ts', app') = tick i ts app in (t ∷ ts', app')

  -- An interleaving, as the indices of the tasks that go on.
  unfoldable pub interleave : List ℕ → List Task → App G L → List Task × App G L
  unfolding tick
  interleave [] ts app = (ts, app)
  interleave (i ∷ is) ts app = let (ts', app') = tick i ts app in interleave is ts' app'
