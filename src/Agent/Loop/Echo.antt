-- ===== src/Agent/Loop/Echo.antt =====
-- The loop with the default model.
use mathlib.Core.List.{reverse-append}
use whatsapp_sales_saas_temp.Agent.Loop.{Limits, compose_prompt, replayed, respond, system_parts}
use whatsapp_sales_saas_temp.Agent.Soul.{SoulConfig, build, newline}
use whatsapp_sales_saas_temp.Hindsight.{Hindsight, query}
use whatsapp_sales_saas_temp.Llm.{
  LlmMessage, Role, content_or, echo_llm, echo_text, is_user, last_user,
}
use whatsapp_sales_saas_temp.Memory.{Memory, recall}
use whatsapp_sales_saas_temp.Models.{Tenant}
use whatsapp_sales_saas_temp.Prelude.{
  List, Option, Text, [], ap, find, join, length, map, refl, some, ◌++◌, ◌∷◌, ◌≡◌,
}
use whatsapp_sales_saas_temp.Result.{ok}
use whatsapp_sales_saas_temp.Unicode.{Unicode}

last_user-compose :
    (first : LlmMessage) (history : List LlmMessage) (said : Text)
    → last_user (first ∷ (history ++ record { role = Role.user; content = said } ∷ [])) ≡ said
unfolding last_user
last_user-compose first history said =
    ap (λ ms. content_or [] (find is_user ms))
      (reverse-append (first ∷ history) (record { role = Role.user; content = said } ∷ []))

-- With the echo model the loop answers, for every buyer, tenant and stores: the reply quotes the first
-- 120 characters of the new message, whatever was said before, or is the bare template where the
-- message is empty, and the turn reports the facts that the query found and the length of the recalled
-- history.
respond_echo :
    (u : Unicode) (limits : Limits) (tmpl : Text) (memory : Memory) (hindsight : Hindsight)
    (tenant : Tenant) (buyer_id said : Text) (cfg : Option SoulConfig) (s : Unit)
    → respond u (echo_llm tmpl) limits memory hindsight tenant buyer_id said cfg s ≡ (
      ok (record {
        reply = echo_text tmpl said;
        model = tenant.model;
        facts_cited = query u said (some tenant.id) limits.rag_top_k hindsight;
        history_used = length (recall buyer_id (some limits.history_turns) memory);
      }),
      s,
    )
unfolding respond compose_prompt
respond_echo u limits tmpl memory hindsight tenant buyer_id said cfg s =
    rw
      (last_user-compose
        (record {
          role = Role.system;
          content = join (newline ++ newline) (
              system_parts (build tenant cfg)
                (query u said (some tenant.id) limits.rag_top_k hindsight));
        })
        (map replayed (recall buyer_id (some limits.history_turns) memory)) said)
      refl
