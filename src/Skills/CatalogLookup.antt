-- ===== src/Skills/CatalogLookup.antt =====
-- src/sample/skills/catalog_lookup.py. `int_of_text` is Python's `int` on a string, a parameter.
use whatsapp_sales_saas_temp.Hindsight.{Hindsight, query}
use whatsapp_sales_saas_temp.Models.{Fact}
use whatsapp_sales_saas_temp.Prelude.{
  List, Text, [], decimal, if◌then◌else◌, is_empty, length, lit, map, pos, some, strip, true, ℤ,
  ◌++◌, ◌∷◌,
}
use whatsapp_sales_saas_temp.Result.{Result, err, map_ok, ok, type_error, ◌>>=◌}
use whatsapp_sales_saas_temp.Skills.{Skill, SkillResult, param, skill_fail, skill_ok, text_or}
use whatsapp_sales_saas_temp.Unicode.{Unicode}
use whatsapp_sales_saas_temp.Value.{
  Fields, Value, array, bool, done, field, int, object, str, to_text, truth, values_of,
}

module _ (u : Unicode) (int_of_text : Text → Result ℤ) where
  -- `int(v or 5)`
  unfoldable pub top_k_of : Value → Result ℤ
  top_k_of (int n) = ok (if truth (int n) then n else pos 5)
  top_k_of (bool true) = ok (pos 1)
  top_k_of (str (c ∷ s)) = int_of_text (c ∷ s)
  top_k_of v =
      if truth v
      then err (type_error (lit "int() argument must be a string or a real number"))
      else ok (pos 5)

  abbrev pub metadata_fields : List (Text × Text) → Fields
  metadata_fields [] = done
  metadata_fields ((k, v) ∷ rest) = field k (str v) (metadata_fields rest)

  abbrev pub match_of : Fact → Value
  match_of f = object (
      field (lit "content") (str f.content) (
        field (lit "source") (str f.source)
          (field (lit "metadata") (object (metadata_fields f.metadata)) done)))

  abbrev pub lookup_message : Text → List Fact → Text
  lookup_message q [] = lit "no products found for: " ++ u.repr q
  lookup_message q (f ∷ fs) =
      lit "found " ++ (decimal (length (f ∷ fs)) ++ (lit " product(s) for: " ++ u.repr q))

  abbrev pub looked_up : Text → Value → List Fact → SkillResult
  looked_up q tenant_id facts = skill_ok (
      field (lit "matches") (array (values_of (map match_of facts))) (
        field (lit "message") (str (lookup_message q facts))
          (field (lit "tenant_id") tenant_id done)))

  unfoldable pub look_up : Hindsight → Fields → Fields → Result SkillResult
  unfolding top_k_of
  look_up h context params = do
    raw ← text_or (lit "strip") [] (param (lit "query") params)
    let q = strip raw
    let tenant_id = param (lit "tenant_id") context
    if is_empty q
        then ok (skill_fail (lit "query is required"))
        else if truth tenant_id
        then map_ok (λ k. looked_up q tenant_id (query u q (some (to_text u.show tenant_id)) k h))
            (top_k_of (param (lit "top_k") params))
        else ok (skill_fail (lit "context.tenant_id is required for tenant-scoped lookup"))

  abbrev pub catalog_lookup : Skill
  catalog_lookup = record { name = lit "catalog-lookup"; execute = look_up }
