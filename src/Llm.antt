-- ===== src/Llm.antt =====
-- src/sample/llm/port.py: the port and its two deterministic adapters. The temperature is counted in
-- hundredths.
pub mod OpenRouter
use mathlib.Core.List.{reverse}
use whatsapp_sales_saas_temp.Exec.{Exec}
use whatsapp_sales_saas_temp.Prelude.{
  Bool, List, Option, Text, [], false, find, if◌then◌else◌, is_empty, length, lit, none, pos, some,
  take, true, ℕ, ◌++◌, ◌∷◌,
}
use whatsapp_sales_saas_temp.Result.{Result, err, llm_error, ok}
use whatsapp_sales_saas_temp.Value.{Value, int, str}

pub data Role : Type 0 where
  system user assistant : Role

pub record LlmMessage : Type 0 where
  pub role : Role
  pub content : Text

pub record LlmReply : Type 0 where
  pub text : Text
  pub model : Text
  pub metadata : List (Text × Value)

-- `LLMPort`; `S` is the adapter's state.
pub record LlmPort (S : Type 0) : Type 0 where
  pub complete : List LlmMessage → Text → ℕ → ℕ → Exec S LlmReply

-- The defaults of `complete`.
abbrev pub default_max_tokens : ℕ
default_max_tokens = 512

abbrev pub default_temperature : ℕ
default_temperature = 40

abbrev pub is_user : LlmMessage → Bool
is_user m = elim m.role [ user ↦ true | _ ↦ false ]

abbrev pub content_or : Text → Option LlmMessage → Text
content_or d none = d
content_or d (some m) = m.content

-- `next((m.content for m in reversed(messages) if m.role == "user"), "")`
unfoldable pub last_user : List LlmMessage → Text
last_user messages = content_or [] (find is_user (reverse messages))

-- The default of `EchoLLM.template`.
abbrev pub echo_template : Text
echo_template = lit "Recibimos tu mensaje. Te respondemos en breve con la información del catálogo."

unfoldable pub echo_text : Text → Text → Text
echo_text template said =
    if is_empty said
    then template
    else template ++ (lit " (te dijiste: " ++ (take 120 said ++ lit ")"))

abbrev pub echo_llm : Text → LlmPort Unit
echo_llm template = record {
  complete = λ messages model max_tokens temperature s. (
    ok (record {
      text = echo_text template (last_user messages);
      model = model;
      metadata = (lit "adapter", str (lit "echo")) ∷ [];
    }),
    s,
  );
}

-- `ScriptedLLM`
pub record Script : Type 0 where
  pub replies : List Text
  pub calls : List (List LlmMessage)

abbrev pub pop_reply : Text → ℕ → List Text → Result LlmReply × List Text
pop_reply model index [] = (err (llm_error (lit "ScriptedLLM ran out of canned replies")), [])
pop_reply model index (r ∷ rs) = (
  ok (record {
    text = r;
    model = model;
    metadata = (lit "adapter", str (lit "scripted")) ∷ (lit "call_index", int (pos index)) ∷ [];
  }),
  rs,
)

-- The call is recorded before the queue is looked at.
abbrev pub scripted_llm : LlmPort Script
scripted_llm = record {
  complete = λ messages model max_tokens temperature s.
      let (r, rest) = pop_reply model (length s.calls) s.replies in
      (r, record { replies = rest; calls = s.calls ++ messages ∷ [] });
}
