-- ===== src/Skills/SalesCloser.antt =====
-- src/sample/skills/sales_closer.py.
pub mod Paths
pub mod Closing
use whatsapp_sales_saas_temp.Prelude.{
  Bool, List, Option, Text, [], any, contains, false, find, if◌then◌else◌, lit, none, some, true,
  ◌++◌, ◌==◌, ◌∷◌,
}
use whatsapp_sales_saas_temp.Result.{Result, map_ok, message, ok, ◌>>=◌}
use whatsapp_sales_saas_temp.Skills.{Skill, SkillResult, param, skill_fail, skill_ok, text_or}
use whatsapp_sales_saas_temp.Unicode.{Unicode}
use whatsapp_sales_saas_temp.Value.{Fields, bool, done, field, str}

pub data Stage : Type 0 where
  identify present objections confirm notify closed escalated : Stage

-- `stage.value`
abbrev pub stage_name : Stage → Text
stage_name identify = lit "IDENTIFY"
stage_name present = lit "PRESENT"
stage_name objections = lit "OBJECTIONS"
stage_name confirm = lit "CONFIRM"
stage_name notify = lit "NOTIFY"
stage_name closed = lit "CLOSED"
stage_name escalated = lit "ESCALATED"

abbrev pub all_stages : List Stage
all_stages = identify ∷ present ∷ objections ∷ confirm ∷ notify ∷ closed ∷ escalated ∷ []

-- `Stage(raw)`, which raises `ValueError` where this is `none`
abbrev pub parse_stage : Text → Option Stage
parse_stage raw = find (λ s. stage_name s == raw) all_stages

-- `_STAGE_PROMPTS.get(stage, "")`
abbrev pub stage_prompt : Stage → Text
stage_prompt identify = lit "Preguntá al cliente qué producto busca, cantidad y uso."
stage_prompt present =
    lit
      "Presentá los productos del catálogo que matchean su necesidad. Incluí precio y stock. Nunca inventes datos."
stage_prompt objections =
    lit
      "Respondé objeciones con honestidad. Ofrecé alternativas si no hay stock. Si la objeción se repite, escalá a humano."
stage_prompt confirm =
    lit "Pedí confirmación de compra y método de pago. No marques como cerrado sin pago confirmado."
stage_prompt notify = lit "Confirmá la venta y notificá al canal correspondiente."
stage_prompt closed = []
stage_prompt escalated = []

-- `any(w in msg for w in words)`
abbrev pub says : List Text → Text → Bool
says words msg = any (λ w. contains w msg) words

abbrev pub doubts : List Text
doubts = lit "no" ∷ lit "caro" ∷ lit "otro" ∷ lit "alternativa" ∷ []

abbrev pub calls_human : List Text
calls_human = lit "escalar" ∷ lit "humano" ∷ lit "hablar con" ∷ []

abbrev pub agrees : List Text
agrees = lit "ok" ∷ lit "sí" ∷ lit "si" ∷ lit "compro" ∷ lit "quiero" ∷ lit "dame" ∷ []

abbrev pub paid : List Text
paid = lit "pagado" ∷ lit "transferí" ∷ lit "ok" ∷ lit "listo" ∷ []

module _ (u : Unicode) where
  unfoldable pub transition : Stage → Text → Stage
  transition identify message = present
  transition present message = if says doubts (u.lower message) then objections else confirm
  transition objections message =
      if says calls_human (u.lower message)
      then escalated
      else if says agrees (u.lower message)
      then confirm
      else objections
  transition confirm message = if says paid (u.lower message) then notify else confirm
  transition notify message = closed
  transition closed message = closed
  transition escalated message = escalated

  abbrev pub is_terminal : Stage → Bool
  is_terminal closed = true
  is_terminal escalated = true
  is_terminal _ = false

  abbrev pub is_escalated : Stage → Bool
  is_escalated escalated = true
  is_escalated _ = false

  abbrev pub advanced : Stage → Stage → SkillResult
  advanced current next = skill_ok (
      field (lit "current_stage") (str (stage_name current)) (
        field (lit "next_stage") (str (stage_name next)) (
          field (lit "prompt") (str (stage_prompt next)) (
            field (lit "is_terminal") (bool (is_terminal next))
              (field (lit "needs_escalation") (bool (is_escalated next)) done)))))

  unfoldable pub close_sale : Fields → Fields → Result SkillResult
  close_sale context params = do
    raw ← text_or (lit "upper") (lit "IDENTIFY") (param (lit "current_stage") params)
    elim (parse_stage (u.upper raw)) [
      | none ↦ ok (skill_fail (lit "invalid stage: " ++ u.upper raw))
      | some current ↦
          map_ok (λ message. advanced current (transition current message))
            (text_or (lit "lower") [] (param (lit "message") params))
    ]

  abbrev pub sales_closer : Skill
  sales_closer = record { name = lit "sales-closer"; execute = λ h. close_sale }
