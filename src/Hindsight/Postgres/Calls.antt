-- ===== src/Hindsight/Postgres/Calls.antt =====
-- The methods of `PostgresHindsight`; leaving the cursor's `with` has no effect of its own.
use whatsapp_sales_saas_temp.Exec.{Exec, lift, pure, ◌>>=◌, ◌>>◌}
use whatsapp_sales_saas_temp.Hindsight.Postgres.{
  Argument, Codec, Connection, all_for_sql, argument_of, insert_sql, int_argument, query_sql,
  row_to_fact, text_argument,
}
use whatsapp_sales_saas_temp.Models.{Fact}
use whatsapp_sales_saas_temp.Prelude.{
  List, Option, Text, [], if◌then◌else◌, is_empty, strip, ℤ, ◌∷◌,
}
use whatsapp_sales_saas_temp.Result.{traverse}

-- What `add_fact` passes with the statement.
abbrev pub insert_arguments : Codec → Fact → List Argument
insert_arguments codec fact =
    text_argument fact.id
    ∷ text_argument fact.tenant_id
    ∷ text_argument fact.source
    ∷ text_argument fact.content
    ∷ text_argument (codec.dumps fact.metadata)
    ∷ text_argument (codec.isoformat fact.created_at)
    ∷ []

module _ {D : Type 0} (codec : Codec) (connection : Connection D) where
  unfoldable pub insert_fact : Fact → Exec D Fact
  insert_fact fact = do
    connection.execute insert_sql (insert_arguments codec fact)
    connection.commit
    pure fact

  unfoldable pub search_facts : Text → Option Text → ℤ → Exec D (List Fact)
  search_facts query_text tenant_id top_k = if is_empty (strip query_text) then pure [] else (do
    rows ← connection.execute query_sql (
        argument_of tenant_id
        ∷ argument_of tenant_id
        ∷ text_argument query_text
        ∷ text_argument query_text
        ∷ int_argument top_k
        ∷ [])
    lift (traverse (row_to_fact codec) rows))

  unfoldable pub facts_of : Text → Exec D (List Fact)
  facts_of tenant_id = do
    rows ← connection.execute all_for_sql (text_argument tenant_id ∷ [])
    lift (traverse (row_to_fact codec) rows)
