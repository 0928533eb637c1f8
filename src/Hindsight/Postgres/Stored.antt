-- ===== src/Hindsight/Postgres/Stored.antt =====
-- Facts that come back from the database.
use whatsapp_sales_saas_temp.Dict.{Dict}
use whatsapp_sales_saas_temp.Exec.{◌>>=◌}
use whatsapp_sales_saas_temp.Hindsight.Postgres.{
  Codec, Connection, Row, dict_column, iso_text, json_column, moment, read_date, read_metadata,
  row_to_fact, text_argument,
}
use whatsapp_sales_saas_temp.Hindsight.Postgres.Calls.{facts_of, insert_arguments, insert_fact}
use whatsapp_sales_saas_temp.Models.{Fact}
use whatsapp_sales_saas_temp.Prelude.{
  List, Text, [], ap, inl, inr, lit, refl, some, ℕ, ◌++◌, ◌∷◌, ◌≡◌, ◌⊎◌,
}
use whatsapp_sales_saas_temp.Result.{ok, traverse}

-- The columns id, tenant_id, source, content, metadata and created_at of the row hold the values that the
-- insertion of the fact passes, in this order; the last two as their texts, or as what these texts
-- stand for where the driver has decoded them.
pub record IsStored (codec : Codec) (fact : Fact) (row : Row) : Type 0 where
  pub metadata_text : Text
  pub date_text : Text
  pub inserted :
      insert_arguments codec fact
      ≡ text_argument row.id
        ∷ text_argument row.tenant_id
        ∷ text_argument row.source
        ∷ text_argument row.content
        ∷ text_argument metadata_text
        ∷ text_argument date_text
        ∷ []
  pub metadata :
      (row.metadata ≡ json_column metadata_text)
      ⊎ ((d : Dict Text) × (row.metadata ≡ dict_column d)
          × (codec.loads metadata_text ≡ ok (some d)))
  pub date :
      (row.created_at ≡ iso_text date_text)
      ⊎ ((t : ℕ) × (row.created_at ≡ moment t) × (codec.fromisoformat date_text ≡ ok t))

-- The rows are those of the facts, in order.
abbrev pub AreStored : Codec → List Fact → List Row → Type 0
AreStored codec [] [] = Unit
AreStored codec [] (r ∷ rows) = ⊥
AreStored codec (f ∷ facts) [] = ⊥
AreStored codec (f ∷ facts) (r ∷ rows) = IsStored codec f r × AreStored codec facts rows

module _ (codec : Codec) where
  -- The columns of a stored row hold the fact's own values.
  columns :
      (fact : Fact) (row : Row) (s : IsStored codec fact row)
      → (row.id ≡ fact.id)
        × (row.tenant_id ≡ fact.tenant_id)
        × (row.source ≡ fact.source)
        × (row.content ≡ fact.content)
        × (s.metadata_text ≡ codec.dumps fact.metadata)
        × (s.date_text ≡ codec.isoformat fact.created_at)
  columns fact row s = let e = s.inserted in (cc, cc, cc, cc, cc, cc)

  loads-IsStored :
      (fact : Fact) (row : Row) (s : IsStored codec fact row)
      → codec.loads s.metadata_text ≡ ok (some fact.metadata)
  loads-IsStored fact row s =
      let (i, t, c, k, m, d) = columns fact row s in rw m (codec.loads-dumps fact.metadata)

  fromisoformat-IsStored :
      (fact : Fact) (row : Row) (s : IsStored codec fact row)
      → codec.fromisoformat s.date_text ≡ ok fact.created_at
  fromisoformat-IsStored fact row s =
      let (i, t, c, k, m, d) = columns fact row s in
      rw d (codec.fromisoformat-isoformat fact.created_at)

  read_metadata-IsStored :
      (fact : Fact) (row : Row)
      → IsStored codec fact row
      → read_metadata codec row.metadata ≡ ok fact.metadata
  read_metadata-IsStored fact row s = elim (s.metadata) [
    | inl e ↦ rw e (rw (loads-IsStored fact row s) refl)
    | inr (d, e, l) ↦
        let same_dict : d ≡ fact.metadata = let f = loads-IsStored fact row s in cc in
        rw e (ap ok same_dict)
  ]

  read_date-IsStored :
      (fact : Fact) (row : Row)
      → IsStored codec fact row
      → read_date codec row.created_at ≡ ok fact.created_at
  read_date-IsStored fact row s = elim (s.date) [
    | inl e ↦ rw e (fromisoformat-IsStored fact row s)
    | inr (t, e, l) ↦
        let same_time : t ≡ fact.created_at = let f = fromisoformat-IsStored fact row s in cc in
        rw e (ap ok same_time)
  ]

  row_to_fact-IsStored :
      (fact : Fact) (row : Row) → IsStored codec fact row → row_to_fact codec row ≡ ok fact
  unfolding row_to_fact
  row_to_fact-IsStored fact row s =
      let (i, t, c, k, m, d) = columns fact row s in
      rw (read_metadata-IsStored fact row s, read_date-IsStored fact row s, i, t, c, k) refl

  traverse-AreStored :
      (facts : List Fact) (rows : List Row)
      → AreStored codec facts rows
      → traverse (row_to_fact codec) rows ≡ ok facts
  unfolding traverse
  traverse-AreStored [] [] s = refl
  traverse-AreStored [] (r ∷ rows) s = absurd s
  traverse-AreStored (f ∷ facts) [] s = absurd s
  traverse-AreStored (f ∷ facts) (r ∷ rows) s =
      rw (row_to_fact-IsStored f r s.0, traverse-AreStored facts rows s.1) refl

module _ {D : Type 0} (codec : Codec) (connection : Connection D) where
  -- A database that takes the insertion and the commit, and then answers the selection, for the fact's
  -- tenant, with rows whose columns hold the values passed for the new fact and those that would be
  -- passed for some others, whichever way its driver decodes the typed columns: adding the fact and
  -- asking for all of its tenant returns those facts, just as they were.
  pub facts_of-insert_fact :
      (fact : Fact) (others : List Fact) (rows : List Row) (before inserted committed after : D)
      → connection.execute
          (lit "INSERT INTO facts (id, tenant_id, source, content, metadata, created_at) "
            ++ lit "VALUES (%s, %s, %s, %s, %s::jsonb, %s)")
          (insert_arguments codec fact)
          before
        ≡ (ok [], inserted)
      → connection.commit inserted ≡ (ok tt, committed)
      → connection.execute
          (lit "SELECT id, tenant_id, source, content, metadata, created_at FROM facts "
            ++ lit "WHERE tenant_id = %s ORDER BY created_at DESC")
          (text_argument fact.tenant_id ∷ [])
          committed
        ≡ (ok rows, after)
      → AreStored codec (fact ∷ others) rows
      → (insert_fact codec connection fact >>= λ f. facts_of codec connection f.tenant_id) before
        ≡ (ok (fact ∷ others), after)
  unfolding insert_fact facts_of
  facts_of-insert_fact fact others rows before inserted committed after i c q s =
      rw i (rw c (rw q (rw (traverse-AreStored codec (fact ∷ others) rows s) refl)))
