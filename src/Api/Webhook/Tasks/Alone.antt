-- ===== src/Api/Webhook/Tasks/Alone.antt =====
-- A task that runs alone does what the loop does.
use whatsapp_sales_saas_temp.Agent.Loop.{compose_prompt, default_limits, respond}
use whatsapp_sales_saas_temp.Api.App.{App, buyer_id_for}
use whatsapp_sales_saas_temp.Api.Webhook.{Answer, answer, receive_all, receive_message}
use whatsapp_sales_saas_temp.Api.Webhook.Tasks.{
  Phase, Task, answer_from, gone, heard_entry, interleave, ready, remember_entry, reply_entry,
}
use whatsapp_sales_saas_temp.Hindsight.{query}
use whatsapp_sales_saas_temp.Llm.{LlmPort, LlmReply, default_max_tokens, default_temperature}
use whatsapp_sales_saas_temp.Memory.{BuyerInteraction, recall}
use whatsapp_sales_saas_temp.Models.{Fact, InboundMessage, Tenant}
use whatsapp_sales_saas_temp.Prelude.{List, Text, [], inl, inr, none, refl, some, ℕ, ◌∙◌, ◌∷◌, ◌≡◌}
use whatsapp_sales_saas_temp.Result.{Error, Result, Result-cases, err, ok}
use whatsapp_sales_saas_temp.Unicode.{Unicode}
use whatsapp_sales_saas_temp.Whatsapp.Gateway.{GatewayPort, OutboundMessage}

-- Four waits for each message.
abbrev pub turns : List InboundMessage → List ℕ
turns [] = []
turns (m ∷ ms) = 0 ∷ 0 ∷ 0 ∷ 0 ∷ turns ms

abbrev pub ends : Result (Unit {0}) → Phase
ends (ok x) = ready []
ends (err e) = gone e

abbrev pub task : ℕ → Tenant → Phase → Task
task now tenant phase = record { now = now; tenant = tenant; phase = phase }

module _ {G L : Type 0} (u : Unicode) (gateway : GatewayPort G) (llm : LlmPort L) (now : ℕ)
    (tenant : Tenant) where
  gone_stays :
      (ms : List InboundMessage) (e : Error) (a : App G L)
      → interleave u gateway llm (turns ms) (task now tenant (gone e) ∷ []) a
        ≡ (task now tenant (gone e) ∷ [], a)
  unfolding interleave
  gone_stays [] e a = refl
  gone_stays (m ∷ ms) e a = gone_stays ms e a

  -- What happens to one message.
  module _ (m : InboundMessage) (a : App G L) where
    abbrev bid : Text
    bid = buyer_id_for tenant.slug m.from_number

    abbrev pub entries_before : List BuyerInteraction
    entries_before =
        recall bid (some default_limits.history_turns)
          (remember_entry (heard_entry now tenant m) a).memory

    abbrev pub found_facts : List Fact
    found_facts = query u m.text (some tenant.id) default_limits.rag_top_k a.hindsight

    abbrev pub model_turn : Result LlmReply × L
    model_turn =
        llm.complete (compose_prompt tenant entries_before found_facts m.text none) tenant.model
          default_max_tokens default_temperature a.llm

    abbrev said : Answer
    said = answer_from u found_facts entries_before model_turn.0

    abbrev pub sending_result : Result OutboundMessage × G
    sending_result = gateway.send_text now m.from_number said.reply (some tenant.id) a.gateway

    abbrev sent : App G L
    sent = record (remember_entry (heard_entry now tenant m) a) {
      llm = model_turn.1;
      gateway = sending_result.1;
    }

    abbrev pub after_sending : Result OutboundMessage → Result (Unit {0}) × App G L
    after_sending (ok s) = (ok tt, remember_entry (reply_entry now tenant m said s) sent)
    after_sending (err e) = (err e, sent)

    answer-eq :
        answer u gateway llm tenant bid m.text (remember_entry (heard_entry now tenant m) a)
        ≡ (ok said, record (remember_entry (heard_entry now tenant m) a) { llm = model_turn.1 })
    unfolding answer respond
    answer-eq = elim (Result-cases model_turn.0) [ inl (r, e) ↦ rw e refl | inr (x, e) ↦ rw e refl ]

    pub receive_message-eq :
        receive_message u gateway llm now tenant m a ≡ after_sending sending_result.0
    unfolding receive_message
    receive_message-eq =
        rw answer-eq
          (elim (Result-cases sending_result.0) [ inl (s, e) ↦ rw e refl | inr (x, e) ↦ rw e refl ])

    abbrev after_one : List InboundMessage → Result OutboundMessage → Phase
    after_one ms (ok s) = ready ms
    after_one ms (err e) = gone e

    interleave-one :
        (is : List ℕ) (ms : List InboundMessage)
        → interleave u gateway llm (0 ∷ 0 ∷ 0 ∷ 0 ∷ is) (task now tenant (ready (m ∷ ms)) ∷ []) a
          ≡ interleave u gateway llm is
              (task now tenant (after_one ms sending_result.0) ∷ [])
              (after_sending sending_result.0).1
    unfolding interleave
    interleave-one is ms = elim (Result-cases sending_result.0) [
      | inl (s, e) ↦ rw e refl
      | inr (x, e) ↦ rw e refl
    ]

  -- With any gateway and any model: the task of a request that is never interrupted ends as the loop
  -- over its messages does, by its end or by the same exception, and in the same state.
  pub interleave-receive_all :
      (ms : List InboundMessage) (a : App G L)
      → let (r, a') = receive_all u gateway llm now tenant ms a in
        interleave u gateway llm (turns ms) (task now tenant (ready ms) ∷ []) a
        ≡ (task now tenant (ends r) ∷ [], a')
  unfolding interleave receive_all
  interleave-receive_all [] a = refl
  interleave-receive_all (m ∷ ms) a =
      interleave-one m a (turns ms) ms ∙ elim (Result-cases (sending_result m a).0) [
        | inl (s, e) ↦
            rw (receive_message-eq m a)
              (rw e (interleave-receive_all ms (after_sending m a (ok s)).1))
        | inr (x, e) ↦
            rw (receive_message-eq m a) (rw e (gone_stays ms x (after_sending m a (err x)).1))
      ]
