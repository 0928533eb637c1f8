-- ===== src/Llm/OpenRouter/Answers.antt =====
-- What a completion through OpenRouter returns, on every branch.
use whatsapp_sales_saas_temp.Exec.{Exec}
use whatsapp_sales_saas_temp.Llm.{LlmMessage, LlmReply}
use whatsapp_sales_saas_temp.Llm.OpenRouter.{OpenRouterLlm, Request, Response, reply_of, request_of}
use whatsapp_sales_saas_temp.Llm.OpenRouter.Shape.{IsLlmError, IsTypeError, Picks}
use whatsapp_sales_saas_temp.Prelude.{List, Text, decimal, lit, ℕ, ◌++◌, ◌<◌, ◌≡◌, ◌≤◌, ◌⊎◌}
use whatsapp_sales_saas_temp.Result.{Error, Result, err, llm_error, ok}
use whatsapp_sales_saas_temp.Unicode.{Unicode}
use whatsapp_sales_saas_temp.Value.{Value}

module _ (u : Unicode) (model : Text) where
  -- What a response amounts to.
  pub data Answers (res : Response) : Result LlmReply → Type 0 where
    over_400 :
        400 ≤ res.status_code
        → Answers res (
            err (
              llm_error (lit "openrouter " ++ (decimal res.status_code ++ (lit ": " ++ res.text)))))
    well_shaped :
        {body c : Value}
        → res.status_code < 400
        → res.json ≡ ok body
        → Picks body c
        → Answers res (ok (reply_of u model body c))
    misshapen :
        {body : Value} {e : Error}
        → res.status_code < 400
        → res.json ≡ ok body
        → ((c : Value) → ¬ Picks body c)
        → IsLlmError e ⊎ IsTypeError e
        → Answers res (err e)
    unread :
        {x e : Error}
        → res.status_code < 400
        → res.json ≡ err x
        → IsLlmError e ⊎ (e ≡ x)
        → Answers res (err e)

module _ {S : Type 0} (u : Unicode) (post : Request → Exec S Response) (r : OpenRouterLlm)
    (messages : List LlmMessage) (model : Text) (max_tokens temperature : ℕ) (s : S) where
  abbrev pub posted : Result Response × S
  posted = post (request_of r messages model max_tokens temperature) s

  abbrev pub Completes : Result Response → Result LlmReply → Type 0
  Completes (err e) out = (m : Text) × (out ≡ err (llm_error m))
  Completes (ok res) out = Answers u model res out
