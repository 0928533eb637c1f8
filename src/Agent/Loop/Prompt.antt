-- ===== src/Agent/Loop/Prompt.antt =====
-- What the model is shown, and what the turn reports.
use whatsapp_sales_saas_temp.Agent.Loop.{Limits, respond}
use whatsapp_sales_saas_temp.Agent.Soul.{SoulConfig}
use whatsapp_sales_saas_temp.Hindsight.{Hindsight, add_fact}
use whatsapp_sales_saas_temp.Hindsight.Scope.{query-add_fact_other}
use whatsapp_sales_saas_temp.Llm.{LlmPort}
use whatsapp_sales_saas_temp.Memory.{BuyerInteraction, Memory, recall, remember}
use whatsapp_sales_saas_temp.Memory.History.{bucket-remember}
use whatsapp_sales_saas_temp.Models.{Fact, Tenant}
use whatsapp_sales_saas_temp.Prelude.{
  Option, Text, ap, arith, eq_iff, negsuc, none, pos, refl, some, suc, take_last, zero, ℤ, ◌≡◌, ◌≢◌,
}
use whatsapp_sales_saas_temp.Unicode.{Unicode}

recall-remember_other :
    (k b : Text) (x : BuyerInteraction) (limit : Option ℤ) (m : Memory)
    → k ≢ b
    → recall b limit (remember k x m) ≡ recall b limit m
unfolding recall
recall-remember_other k b x none m n = ground (arith, bucket-remember k x m b, eq_iff k b)
recall-remember_other k b x (some (negsuc i)) m n = refl
recall-remember_other k b x (some (pos zero)) m n = refl
recall-remember_other k b x (some (pos (suc i))) m n =
    ap (take_last (suc i)) (ground (arith, bucket-remember k x m b, eq_iff k b))

module _ {S : Type 0} (u : Unicode) (llm : LlmPort S) (limits : Limits) where
  -- The answer to a buyer, the state of the model and a failure alike, depends on no fact of another
  -- tenant and on nothing that was said with another buyer, whatever the model is.
  pub respond_isolated :
      (memory : Memory) (hindsight : Hindsight) (tenant : Tenant) (buyer_id message_text : Text)
      (cfg : Option SoulConfig) (f : Fact) (other : Text) (x : BuyerInteraction) (s : S)
      → f.tenant_id ≢ tenant.id
      → other ≢ buyer_id
      → respond u llm limits
          (remember other x memory)
          (add_fact f hindsight)
          tenant
          buyer_id
          message_text
          cfg
          s
        ≡ respond u llm limits memory hindsight tenant buyer_id message_text cfg s
  unfolding respond
  respond_isolated memory hindsight tenant buyer_id message_text cfg f other x s ft ob = rw (
    query-add_fact_other u message_text tenant.id limits.rag_top_k f hindsight ft,
    recall-remember_other other buyer_id x (some limits.history_turns) memory ob,
  )
