-- ===== src/Hindsight.antt =====
-- src/sample/ingestion/hindsight.py: `InMemoryHindsight`; `PostgresHindsight` is in Postgres.antt.
pub mod Scope
pub mod Picked
pub mod Postgres
use whatsapp_sales_saas_temp.Models.{Fact}
use whatsapp_sales_saas_temp.Prelude.{
  Bool, List, Option, Text, [], contains, filter, if◌then◌else◌, is_empty, length, negsuc, none,
  pos, some, strip, suc, take, true, ℤ, ◌++◌, ◌-◌, ◌==◌, ◌∷◌,
}
use whatsapp_sales_saas_temp.Unicode.{Unicode}

pub record Hindsight : Type 0 where
  pub facts : List Fact

unfoldable pub add_fact : Fact → Hindsight → Hindsight
add_fact fact h = record { facts = h.facts ++ fact ∷ [] }

-- `tenant_id is None or f.tenant_id == tenant_id`
abbrev pub in_scope : Option Text → Fact → Bool
in_scope none f = true
in_scope (some tenant_id) f = f.tenant_id == tenant_id

-- `xs[:k]`
abbrev pub slice_to {ℓ} : {A : Type ℓ} → ℤ → List A → List A
slice_to (pos k) xs = take k xs
slice_to (negsuc k) xs = take (length xs - suc k) xs

abbrev pub needle : Unicode → Text → Text
needle u query_text = strip (u.lower query_text)

abbrev pub mentions : Unicode → Text → Fact → Bool
mentions u word f = contains word (u.lower f.content)

unfoldable pub query : Unicode → Text → Option Text → ℤ → Hindsight → List Fact
query u query_text tenant_id top_k h =
    let word = needle u query_text in
    let scope = if is_empty word then [] else filter (in_scope tenant_id) h.facts in
    slice_to top_k (filter (mentions u word) scope)

unfoldable pub all_for : Text → Hindsight → List Fact
all_for tenant_id h = filter (λ f. f.tenant_id == tenant_id) h.facts
