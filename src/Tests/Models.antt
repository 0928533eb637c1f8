-- ===== src/Tests/Models.antt =====
-- OpenRouter: a server that answers with one choice.
use whatsapp_sales_saas_temp.Exec.{Exec}
use whatsapp_sales_saas_temp.Llm.{LlmReply}
use whatsapp_sales_saas_temp.Llm.OpenRouter.{OpenRouterLlm, Request, Response, complete}
use whatsapp_sales_saas_temp.Prelude.{[], lit, ℕ, ◌+◌}
use whatsapp_sales_saas_temp.Result.{Result, ok}
use whatsapp_sales_saas_temp.Unicode.{ascii}
use whatsapp_sales_saas_temp.Value.{Value, array, cons, done, field, nil, object, str}

abbrev one_choice : Value
one_choice = object (
    field (lit "choices")
      (array (
        cons
          (object
            (field (lit "message") (object (field (lit "content") (str (lit "Hola")) done)) done))
          nil))
      done)

abbrev answering : Request → Exec ℕ Response
answering request n = (ok (record { status_code = 200; text = []; json = ok one_choice }), n + 1)

abbrev router : OpenRouterLlm
router = record {
  api_key = lit "k";
  base_url = lit "https://openrouter.ai/api/v1";
  timeout_s = 30;
  referer = lit "r";
  title = lit "t";
}

abbrev completed : Result LlmReply × ℕ
completed = complete ascii answering router [] (lit "m") 512 40 0
