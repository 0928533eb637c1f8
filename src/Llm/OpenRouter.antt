-- ===== src/Llm/OpenRouter.antt =====
-- `OpenRouterLLM` of src/sample/llm/port.py. The HTTP client is not part of the program: `post` is
-- what it does with a request, and `json` is what the response's `json()` gives or raises.
pub mod Shape
pub mod Answers
use whatsapp_sales_saas_temp.Api.Webhook.{response}
use whatsapp_sales_saas_temp.Exec.{Exec}
use whatsapp_sales_saas_temp.Llm.{LlmMessage, LlmPort, LlmReply}
use whatsapp_sales_saas_temp.Prelude.{
  List, Option, Text, [], decimal, if◌then◌else◌, is_empty, leb, lit, nat_eq, none, some,
  strip_right, ℕ, ◌++◌, ◌∷◌,
}
use whatsapp_sales_saas_temp.Result.{
  Error, Result, err, index_error, int_key_error, key_error, llm_error, map_ok, message, ok,
  skill_not_found, type_error, unsupported_format, value_error,
}
use whatsapp_sales_saas_temp.Security.LogFilter.{api_key}
use whatsapp_sales_saas_temp.Unicode.{Unicode}
use whatsapp_sales_saas_temp.Value.{
  Value, array, cons, done, find_field, nil, object, or_else, str, to_text,
}
use whatsapp_sales_saas_temp.Whatsapp.Gateway.{text}

pub record Request : Type 0 where
  pub url : Text
  pub model : Text
  pub messages : List LlmMessage
  pub max_tokens : ℕ
  pub temperature : ℕ
  pub headers : List (Text × Text)
  pub timeout_s : ℕ

pub record Response : Type 0 where
  pub status_code : ℕ
  pub text : Text
  pub json : Result Value

pub record OpenRouterLlm : Type 0 where
  pub api_key : Text
  pub base_url : Text
  pub timeout_s : ℕ
  pub referer : Text
  pub title : Text

abbrev pub default_base_url : Text
default_base_url = lit "https://openrouter.ai/api/v1"

-- `(base_url or self.BASE_URL).rstrip("/")`
abbrev pub base_of : Option Text → Text
base_of none = default_base_url
base_of (some []) = default_base_url
base_of (some (c ∷ s)) = c ∷ s

unfoldable pub init : Text → Option Text → ℕ → Text → Text → Result OpenRouterLlm
init api_key base_url timeout_s referer title =
    if is_empty api_key
    then err (llm_error (lit "OpenRouterLLM requires a non-empty api_key"))
    else ok (record {
      api_key = api_key;
      base_url = strip_right (λ c. nat_eq c b'/') (base_of base_url);
      timeout_s = timeout_s;
      referer = referer;
      title = title;
    })

-- `v[key]`
unfoldable pub index_key : Text → Value → Result Value
index_key key (object fs) = elim (find_field key fs) [ none ↦ err (key_error key) | some v ↦ ok v ]
index_key key v = err (type_error (lit "not subscriptable by a string"))

-- `v[0]`
unfoldable pub index_zero : Value → Result Value
index_zero (array nil) = err (index_error (lit "list index out of range"))
index_zero (array (cons v vs)) = ok v
index_zero (str []) = err (index_error (lit "string index out of range"))
index_zero (str (c ∷ s)) = ok (str (c ∷ []))
index_zero (object fs) = err (int_key_error 0)
index_zero v = err (type_error (lit "not subscriptable"))

abbrev pub shape_error : Unicode → Error → Error
shape_error u e = llm_error (lit "openrouter response shape unexpected: " ++ message u.repr e)

-- `except (KeyError, IndexError, ValueError)`: anything else goes through. The last two kinds are
-- a `KeyError` and a `ValueError` by inheritance.
unfoldable pub reshaped : {A : Type 0} → Unicode → Result A → Result A
reshaped u (err (key_error m)) = err (shape_error u (key_error m))
reshaped u (err (int_key_error n)) = err (shape_error u (int_key_error n))
reshaped u (err (index_error m)) = err (shape_error u (index_error m))
reshaped u (err (value_error m)) = err (shape_error u (value_error m))
reshaped u (err (skill_not_found m)) = err (shape_error u (skill_not_found m))
reshaped u (err (unsupported_format m)) = err (shape_error u (unsupported_format m))
reshaped u r = r

-- `except LLMError: raise`, `except Exception as exc: raise LLMError(...)`
unfoldable pub request_error : Unicode → Error → Error
request_error u (llm_error m) = llm_error m
request_error u e = llm_error (lit "openrouter request failed: " ++ message u.repr e)

abbrev pub usage_of : Value → Value
usage_of (object fs) = or_else (object done) (find_field (lit "usage") fs)
usage_of v = object done

-- `data["choices"][0]["message"]["content"]`
abbrev pub chosen : Value → Result Value
chosen v = whatsapp_sales_saas_temp.Result.◌>>=◌ (index_key (lit "choices") v) (λ cs.
    whatsapp_sales_saas_temp.Result.◌>>=◌ (index_zero cs) (λ c.
      whatsapp_sales_saas_temp.Result.◌>>=◌ (index_key (lit "message") c)
        (index_key (lit "content"))))

abbrev pub reply_of : Unicode → Text → Value → Value → LlmReply
reply_of u model body choice = record {
  text = to_text u.show choice;
  model = model;
  metadata = (lit "adapter", str (lit "openrouter")) ∷ (lit "usage", usage_of body) ∷ [];
}

unfoldable pub read_response : Unicode → Text → Response → Result LlmReply
read_response u model res =
    if leb 400 res.status_code
    then err (llm_error (lit "openrouter " ++ (decimal res.status_code ++ (lit ": " ++ res.text))))
    else reshaped u (
        whatsapp_sales_saas_temp.Result.◌>>=◌ res.json
          (λ body. map_ok (reply_of u model body) (chosen body)))

abbrev pub request_of : OpenRouterLlm → List LlmMessage → Text → ℕ → ℕ → Request
request_of r messages model max_tokens temperature = record {
  url = r.base_url ++ lit "/chat/completions";
  model = model;
  messages = messages;
  max_tokens = max_tokens;
  temperature = temperature;
  headers =
      (lit "Authorization", lit "Bearer " ++ r.api_key)
      ∷ (lit "Content-Type", lit "application/json")
      ∷ (lit "HTTP-Referer", r.referer)
      ∷ (lit "X-Title", r.title)
      ∷ [];
  timeout_s = r.timeout_s;
}

module _ {S : Type 0} (u : Unicode) (post : Request → Exec S Response) where
  unfoldable pub complete : OpenRouterLlm → List LlmMessage → Text → ℕ → ℕ → Exec S LlmReply
  unfolding read_response
  complete r messages model max_tokens temperature s =
      let (res, s') = post (request_of r messages model max_tokens temperature) s in
      elim res [
        | err e ↦ (err (request_error u e), s')
        | ok response ↦ (read_response u model response, s')
      ]

  abbrev pub open_router : OpenRouterLlm → LlmPort S
  open_router r = record { complete = complete r }
