-- ===== src/Skills/Registry.antt =====
-- `SkillRegistry` of src/sample/skills/registry.py, and `invoke_skill` of src/sample/client.py.
use whatsapp_sales_saas_temp.Dict.{Dict, insert, keys, lookup}
use whatsapp_sales_saas_temp.Dict.Laws.{lookup-insert}
use whatsapp_sales_saas_temp.Hindsight.{Hindsight}
use whatsapp_sales_saas_temp.Prelude.{
  List, Text, [], arith, if◌then◌else◌, lit, none, some, ℤ, ◌++◌, ◌==◌, ◌≡◌,
}
use whatsapp_sales_saas_temp.Result.{Result, err, ok, skill_not_found, ◌>>=◌}
use whatsapp_sales_saas_temp.Skills.{Skill, SkillResult}
use whatsapp_sales_saas_temp.Skills.CatalogLookup.{catalog_lookup}
use whatsapp_sales_saas_temp.Skills.LeadQualifier.{lead_qualifier}
use whatsapp_sales_saas_temp.Skills.SalesCloser.{sales_closer}
use whatsapp_sales_saas_temp.Unicode.{Unicode}
use whatsapp_sales_saas_temp.Value.{Fields}

pub record Registry : Type 0 where
  pub skills : Dict Skill

unfoldable pub register : Skill → Registry → Registry
register skill r = record { skills = insert skill.name skill r.skills }

abbrev pub builtins : Unicode → (Text → Result ℤ) → Registry
builtins u int_of_text =
    register (sales_closer u) (
      register (lead_qualifier u)
        (register (catalog_lookup u int_of_text) (record { skills = [] })))

-- `get`
unfoldable pub find_skill : Text → Registry → Result Skill
find_skill name r = elim (lookup name r.skills) [
  | none ↦ err (skill_not_found (lit "unknown skill: " ++ name))
  | some skill ↦ ok skill
]

-- `list`
unfoldable pub list_skills : Registry → List Text
list_skills r = keys r.skills

unfoldable pub invoke : Text → Fields → Fields → Hindsight → Registry → Result SkillResult
unfolding find_skill
invoke name context params h r = find_skill name r >>= λ skill. skill.execute h context params

-- The last registration of a name is the one that is invoked, and no other name is affected.
register-invoke :
    (skill : Skill) (name : Text) (context params : Fields) (h : Hindsight) (r : Registry)
    → invoke name context params h (register skill r) ≡ (
        if skill.name == name
        then skill.execute h context params
        else invoke name context params h r)
unfolding invoke register find_skill
register-invoke skill name context params h r =
    ground (arith, lookup-insert name skill.name skill r.skills)
