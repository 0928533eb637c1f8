-- ===== src/Api/Webhook/Delivery.antt =====
-- What happens to the messages of a request, with the in-memory gateway and any model.
use whatsapp_sales_saas_temp.Memory.{Role as Speaker}
use whatsapp_sales_saas_temp.Agent.Loop.{AgentTurn, default_limits, respond}
use whatsapp_sales_saas_temp.Api.App.{App, buyer_id_for}
use whatsapp_sales_saas_temp.Api.Webhook.{
  Answer, answer, answer_failed, answer_of, id_or_empty, interaction, receive_all, receive_message,
}
use whatsapp_sales_saas_temp.Llm.{LlmPort}
use whatsapp_sales_saas_temp.Memory.{BuyerInteraction, agent, buyer, remember}
use whatsapp_sales_saas_temp.Memory.History.{remember_all}
use whatsapp_sales_saas_temp.Models.{InboundMessage, Tenant}
use whatsapp_sales_saas_temp.Prelude.{
  All, List, Text, [], ap, append-nil, append_assoc, inl, inr, lit, map, none, refl, some, sym, ℕ,
  ◌++◌, ◌∙◌, ◌∷◌, ◌≡◌,
}
use whatsapp_sales_saas_temp.Result.{Result, Result-cases, err, ok}
use whatsapp_sales_saas_temp.Unicode.{Unicode}
use whatsapp_sales_saas_temp.Whatsapp.Gateway.{
  OutboundMessage, Outbox, in_memory_gateway, mem_id, text, text_message,
}

abbrev pub settled : Unicode → Result AgentTurn → Answer
settled u (ok turn) = answer_of turn
settled u (err e) = answer_failed u e

module _ {L : Type 0} (u : Unicode) (hex : ℕ → Text) (llm : LlmPort L) (now : ℕ)
    (tenant : Tenant) where
  abbrev bid_of : InboundMessage → Text
  bid_of m = buyer_id_for tenant.slug m.from_number

  -- The loop's answer to a message, in the state in which the message is already remembered.
  abbrev turn_in : InboundMessage → App Outbox L → Result AgentTurn × L
  turn_in m a =
      respond u llm default_limits a.memory a.hindsight tenant (bid_of m) m.text none a.llm

  answer-eq :
      (m : InboundMessage) (a : App Outbox L)
      → answer u (in_memory_gateway hex) llm tenant (bid_of m) m.text a
        ≡ (ok (settled u (turn_in m a).0), record a { llm = (turn_in m a).1 })
  unfolding answer
  answer-eq m a = elim (Result-cases (turn_in m a).0) [ inl (t, e) ↦ rw e | inr (x, e) ↦ rw e ]

  abbrev pub heard_line : InboundMessage → BuyerInteraction
  heard_line m =
      interaction now buyer m.text
        ((lit "tenant_id", tenant.id) ∷ (lit "message_id", m.message_id) ∷ [])

  abbrev heard : InboundMessage → App Outbox L → App Outbox L
  heard m a = record a { memory = remember (bid_of m) (heard_line m) a.memory }

  abbrev said_to : InboundMessage → App Outbox L → Answer
  said_to m a = settled u (turn_in m (heard m a)).0

  abbrev out : InboundMessage → App Outbox L → OutboundMessage
  out m a =
      text_message now m.from_number (said_to m a).reply (some tenant.id) (mem_id hex a.gateway)

  abbrev reply_line : InboundMessage → App Outbox L → BuyerInteraction
  reply_line m a =
      interaction now agent (said_to m a).reply
        ((lit "vendor_message_id", id_or_empty (mem_id hex a.gateway)) ∷ (said_to m a).meta)

  abbrev replied : InboundMessage → App Outbox L → App Outbox L
  replied m a = record a {
    memory = remember (bid_of m) (reply_line m a) (heard m a).memory;
    gateway = record { sent = a.gateway.sent ++ out m a ∷ [] };
    llm = (turn_in m (heard m a)).1;
  }

  pub receive_message-eq :
      (m : InboundMessage) (a : App Outbox L)
      → receive_message u (in_memory_gateway hex) llm now tenant m a ≡ (ok tt, replied m a)
  unfolding receive_message
  receive_message-eq m a = rw (answer-eq m (heard m a)) refl

-- Who said what to which buyer id.
pub record Line : Type 0 where
  pub to : Text
  pub role : Speaker
  pub text : Text

abbrev pub line_of : Text × BuyerInteraction → Line
line_of (b, x) = record { to = b; role = x.role; text = x.text }

-- Each message, then the text that was sent back, under the sender's buyer id.
abbrev pub dialogue : Tenant → List InboundMessage → List OutboundMessage → List Line
dialogue tenant [] outs = []
dialogue tenant (m ∷ ms) [] = []
dialogue tenant (m ∷ ms) (o ∷ os) =
    record { to = buyer_id_for tenant.slug m.from_number; role = buyer; text = m.text }
    ∷ record { to = buyer_id_for tenant.slug m.from_number; role = agent; text = o.body }
    ∷ dialogue tenant ms os

-- One text went out for each message, in order, to its sender and under the tenant's id; the memory
-- took exactly the dialogue; the tenants and the facts are as they were.
pub record IsDelivered {L : Type 0} (tenant : Tenant) (ms : List InboundMessage)
    (a a' : App Outbox L) : Type 0 where
  pub outs : List OutboundMessage
  pub sent : a'.gateway.sent ≡ a.gateway.sent ++ outs
  pub addressed : map (λ o. o.to_number) outs ≡ map (λ m. m.from_number) ms
  pub owned : All (λ o. (o.tenant_id ≡ some tenant.id) × (o.kind ≡ text)) outs
  pub log : List (Text × BuyerInteraction)
  pub remembered : a'.memory ≡ remember_all log a.memory
  pub told : map line_of log ≡ dialogue tenant ms outs
  pub fleet : a'.fleet ≡ a.fleet
  pub hindsight : a'.hindsight ≡ a.hindsight

module _ {L : Type 0} (u : Unicode) (hex : ℕ → Text) (llm : LlmPort L) (now : ℕ)
    (tenant : Tenant) where
  IsDelivered-cons :
      (m : InboundMessage) (ms : List InboundMessage) (a a' : App Outbox L)
      → IsDelivered tenant ms (replied u hex llm now tenant m a) a'
      → IsDelivered tenant (m ∷ ms) a a'
  unfolding remember_all
  IsDelivered-cons m ms a a' d = record {
    outs = out u hex llm now tenant m a ∷ d.outs;
    sent = d.sent ∙ append_assoc a.gateway.sent (out u hex llm now tenant m a ∷ []) d.outs;
    addressed = ap (◌∷◌ m.from_number) d.addressed;
    owned = ((refl, refl), d.owned);
    log =
        (bid_of u hex llm now tenant m, heard_line u hex llm now tenant m)
        ∷ (bid_of u hex llm now tenant m, reply_line u hex llm now tenant m a)
        ∷ d.log;
    remembered = d.remembered;
    told =
        ap
          (λ rest.
            line_of (bid_of u hex llm now tenant m, heard_line u hex llm now tenant m)
            ∷ line_of (bid_of u hex llm now tenant m, reply_line u hex llm now tenant m a)
            ∷ rest)
          d.told;
    fleet = d.fleet;
    hindsight = d.hindsight;
  }

  -- For every list of messages of a tenant and every model: the loop does not raise, and delivers.
  pub receive_all-IsDelivered :
      (ms : List InboundMessage) (a : App Outbox L)
      → let (r, a') = receive_all u (in_memory_gateway hex) llm now tenant ms a in
        (r ≡ ok tt) × IsDelivered tenant ms a a'
  unfolding receive_all remember_all
  receive_all-IsDelivered [] a = (
    refl,
    record {
      outs = [];
      sent = sym (append-nil a.gateway.sent);
      addressed = refl;
      owned = tt;
      log = [];
      remembered = refl;
      told = refl;
      fleet = refl;
      hindsight = refl;
    },
  )
  receive_all-IsDelivered (m ∷ ms) a =
      let (fine, d) = receive_all-IsDelivered ms (replied u hex llm now tenant m a) in
      rw (receive_message-eq u hex llm now tenant m a) (
        fine,
        IsDelivered-cons m ms a
            (receive_all u (in_memory_gateway hex) llm now tenant ms
              (replied u hex llm now tenant m a)).1
            d,
      )
