-- ===== src/Api/Service.antt =====
-- The rest of services/api/main.py: the dashboard's origins, `health` and the endpoints of the skills.
-- Rate limits, CORS and the parsing of the bodies are the frameworks'.
pub mod Origins
use whatsapp_sales_saas_temp.Client.{invoke_skill}
use whatsapp_sales_saas_temp.Dict.{Dict}
use whatsapp_sales_saas_temp.Hindsight.{Hindsight}
use whatsapp_sales_saas_temp.Prelude.{
  List, Text, [], filter, if◌then◌else◌, is_empty, lit, map, nat_eq, not, strip, ℕ, ◌∷◌,
}
use whatsapp_sales_saas_temp.Result.{Result}
use whatsapp_sales_saas_temp.Skills.Registry.{Registry, list_skills}
use whatsapp_sales_saas_temp.Value.{Fields}

-- A character in front of the first part.
abbrev pub cons_first : ℕ → List Text → List Text
cons_first c [] = (c ∷ []) ∷ []
cons_first c (part ∷ parts) = (c ∷ part) ∷ parts

-- `s.split(",")`
unfoldable pub split_at : ℕ → Text → List Text
split_at sep [] = [] ∷ []
split_at sep (c ∷ s) =
    let parts = split_at sep s in if nat_eq c sep then [] ∷ parts else cons_first c parts

-- `_origins`; `raw` is `os.environ.get("APP_DASHBOARD_ORIGINS", …)`.
unfoldable pub origins : Text → List Text
unfolding split_at
origins raw = filter (λ o. not (is_empty o)) (map strip (split_at b',' raw))

abbrev pub default_origins : Text
default_origins = lit "http://localhost:3000,http://127.0.0.1:3000"

abbrev pub health : Dict Text
health = (lit "status", lit "ok") ∷ (lit "service", lit "app-api") ∷ []

pub record SkillRequest : Type 0 where
  pub skill : Text
  pub context : Fields
  pub params : Fields

-- `list_skills`
abbrev pub skills_endpoint : Registry → Dict (List Text)
skills_endpoint skills = (lit "skills", list_skills skills) ∷ []

-- `invoke_skill`
abbrev pub invoke_endpoint : SkillRequest → Hindsight → Registry → Result Fields
invoke_endpoint req h skills = invoke_skill req.skill req.context req.params h skills
