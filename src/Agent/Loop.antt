-- ===== src/Agent/Loop.antt =====
-- src/sample/agent/loop.py. The loop reads the memory and the facts, and changes the model only.
pub mod Prompt
pub mod Echo
use whatsapp_sales_saas_temp.Memory.{Role as Speaker}
use whatsapp_sales_saas_temp.Agent.Soul.{SoulConfig, build, newline}
use whatsapp_sales_saas_temp.Exec.{Exec}
use whatsapp_sales_saas_temp.Hindsight.{Hindsight, query}
use whatsapp_sales_saas_temp.Llm.{
  LlmMessage, LlmPort, LlmReply, Role, default_max_tokens, default_temperature,
}
use whatsapp_sales_saas_temp.Memory.{BuyerInteraction, Memory, agent, recall}
use whatsapp_sales_saas_temp.Models.{Fact, Tenant}
use whatsapp_sales_saas_temp.Prelude.{
  List, Option, Text, [], decimal, join, length, lit, map, pos, some, ℕ, ℤ, ◌++◌, ◌+◌, ◌∷◌,
}
use whatsapp_sales_saas_temp.Result.{map_ok}
use whatsapp_sales_saas_temp.Unicode.{Unicode}

pub record AgentTurn : Type 0 where
  pub reply : Text
  pub model : Text
  pub facts_cited : List Fact
  pub history_used : ℕ

pub record Limits : Type 0 where
  pub history_turns : ℤ
  pub rag_top_k : ℤ

abbrev pub default_limits : Limits
default_limits = record { history_turns = pos 6; rag_top_k = pos 5 }

abbrev pub fact_line : ℕ → Fact → Text
fact_line i f = decimal i ++ (lit ". [" ++ (f.source ++ (lit "] " ++ f.content)))

abbrev pub fact_lines : ℕ → List Fact → List Text
fact_lines i [] = []
fact_lines i (f ∷ fs) = fact_line i f ∷ fact_lines (i + 1) fs

unfoldable pub render_facts_block : List Fact → Text
render_facts_block facts = join newline (
    lit "## Catalog facts (use only what's here; never invent prices or stock)"
    ∷ fact_lines 1 facts)

abbrev pub system_parts : Text → List Fact → List Text
system_parts soul [] = soul ∷ []
system_parts soul (f ∷ fs) = soul ∷ render_facts_block (f ∷ fs) ∷ []

abbrev pub turn_role : Speaker → Role
turn_role agent = Role.assistant
turn_role _ = Role.user

abbrev pub replayed : BuyerInteraction → LlmMessage
replayed turn = record { role = turn_role turn.role; content = turn.text }

unfoldable pub compose_prompt :
    Tenant → List BuyerInteraction → List Fact → Text → Option SoulConfig → List LlmMessage
compose_prompt tenant history facts message_text cfg =
    record {
      role = Role.system;
      content = join (newline ++ newline) (system_parts (build tenant cfg) facts);
    }
    ∷ (map replayed history ++ record { role = Role.user; content = message_text } ∷ [])

abbrev pub turn_of : List Fact → List BuyerInteraction → LlmReply → AgentTurn
turn_of facts history reply = record {
  reply = reply.text;
  model = reply.model;
  facts_cited = facts;
  history_used = length history;
}

module _ {S : Type 0} (u : Unicode) (llm : LlmPort S) (limits : Limits) where
  unfoldable pub respond :
      Memory → Hindsight → Tenant → Text → Text → Option SoulConfig → Exec S AgentTurn
  respond memory hindsight tenant buyer_id message_text cfg s =
      let history = recall buyer_id (some limits.history_turns) memory in
      let facts = query u message_text (some tenant.id) limits.rag_top_k hindsight in
      let prompt = compose_prompt tenant history facts message_text cfg in
      let (r, s') = llm.complete prompt tenant.model default_max_tokens default_temperature s in
      (map_ok (turn_of facts history) r, s')
