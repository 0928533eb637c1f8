-- ===== src/Skills.antt =====
-- src/sample/skills/base.py and src/sample/skills/registry.py. A skill is a record of its name and
-- its `execute`, which reads the facts; `data`, `context` and `params` are the fields of a dict.
pub mod LeadQualifier
pub mod SalesCloser
pub mod CatalogLookup
pub mod Registry
pub mod Params
use whatsapp_sales_saas_temp.Hindsight.{Hindsight}
use whatsapp_sales_saas_temp.Prelude.{
  Bool, Option, Text, [], false, if◌then◌else◌, none, some, true, ◌∷◌,
}
use whatsapp_sales_saas_temp.Result.{Result, attribute_error, err, ok}
use whatsapp_sales_saas_temp.Value.{Fields, Value, done, find_field, null, or_else, str, truth}

pub record SkillResult : Type 0 where
  pub success : Bool
  pub data_of : Fields
  pub error : Option Text

-- `SkillResult.ok(**data)`
abbrev pub skill_ok : Fields → SkillResult
skill_ok fs = record { success = true; data_of = fs; error = none }

-- `SkillResult.fail(error)`
abbrev pub skill_fail : Text → SkillResult
skill_fail e = record { success = false; data_of = done; error = some e }

-- `SkillBase`
pub record Skill : Type 0 where
  pub name : Text
  pub execute : Hindsight → Fields → Fields → Result SkillResult

-- `d.get(key)`
abbrev pub param : Text → Fields → Value
param key fs = or_else null (find_field key fs)

-- `v or d`, which the caller then uses as a string; `method` is the string method that it calls.
unfoldable pub text_or : Text → Text → Value → Result Text
text_or method d (str []) = ok d
text_or method d (str (c ∷ s)) = ok (c ∷ s)
text_or method d v = if truth v then err (attribute_error method) else ok d
