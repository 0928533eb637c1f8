-- ===== src/Tests/Concurrent.antt =====
-- Two requests at once: two tasks that take turns.
use whatsapp_sales_saas_temp.Api.App.{App}
use whatsapp_sales_saas_temp.Api.Webhook.Tasks.{Task, interleave, ready}
use whatsapp_sales_saas_temp.Api.Webhook.Tasks.Alone.{task, turns}
use whatsapp_sales_saas_temp.Api.Webhook.Tasks.Settled.{
  Settled, interleave-Settled, turns_of, waits_at,
}
use whatsapp_sales_saas_temp.Llm.{echo_llm, echo_template}
use whatsapp_sales_saas_temp.Prelude.{List, [], arith, suc, zero, ℕ, ◌∷◌, ◌≡◌, ◌≤◌}
use whatsapp_sales_saas_temp.Tests.Envelopes.{greeting}
use whatsapp_sales_saas_temp.Tests.Requests.{hex}
use whatsapp_sales_saas_temp.Tests.Shop.{bakery, shop, shop_app}
use whatsapp_sales_saas_temp.Unicode.{ascii}
use whatsapp_sales_saas_temp.Whatsapp.Gateway.{Outbox, in_memory_gateway}

abbrev two_tasks : List Task
two_tasks =
    task 7 shop (ready (greeting ∷ [])) ∷ task 8 bakery (ready (greeting ∷ greeting ∷ [])) ∷ []

abbrev turns_taken : List ℕ
turns_taken = 0 ∷ 1 ∷ 1 ∷ 0 ∷ 1 ∷ 0 ∷ 0 ∷ 1 ∷ 1 ∷ 1 ∷ 1 ∷ 1 ∷ []

fair_schedule : (j : ℕ) → waits_at j two_tasks ≤ turns_of j turns_taken
fair_schedule zero = omega arith
fair_schedule (suc zero) = omega arith
fair_schedule (suc (suc j)) = omega arith

abbrev done_both : List Task × App Outbox Unit
done_both =
    interleave ascii (in_memory_gateway hex) (echo_llm echo_template) turns_taken two_tasks shop_app

interleave-Settled_example :
    ((j : ℕ) → waits_at j done_both.0 ≡ 0) × Settled two_tasks shop_app done_both.1
interleave-Settled_example =
    interleave-Settled ascii hex (echo_llm echo_template) turns_taken two_tasks shop_app
      fair_schedule

abbrev alone : List Task × App Outbox Unit
alone =
    interleave ascii (in_memory_gateway hex) (echo_llm echo_template) (turns (greeting ∷ []))
      (task 7 shop (ready (greeting ∷ [])) ∷ []) shop_app
