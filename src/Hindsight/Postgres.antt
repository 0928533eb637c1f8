-- ===== src/Hindsight/Postgres.antt =====
-- src/sample/ingestion/hindsight.py: `PostgresHindsight`. The connection, `json` and the printed form of a
-- `datetime` are parameters.
pub mod Calls
pub mod Stored
use whatsapp_sales_saas_temp.Dict.{Dict}
use whatsapp_sales_saas_temp.Exec.{Exec}
use whatsapp_sales_saas_temp.Models.{Fact}
use whatsapp_sales_saas_temp.Prelude.{List, Option, Text, [], lit, none, some, ℕ, ℤ, ◌++◌, ◌≡◌}
use whatsapp_sales_saas_temp.Result.{Result, map_ok, ok, ◌>>=◌}

-- `json.dumps` and `json.loads`, `datetime.isoformat` and `datetime.fromisoformat`. The laws are what they
-- document: what was written is read back.
pub record Codec : Type 0 where
  pub dumps : Dict Text → Text
  pub loads : Text → Result (Option (Dict Text))
  pub isoformat : ℕ → Text
  pub fromisoformat : Text → Result ℕ
  pub loads-dumps : (d : Dict Text) → loads (dumps d) ≡ ok (some d)
  pub fromisoformat-isoformat : (t : ℕ) → fromisoformat (isoformat t) ≡ ok t

-- The arguments of a statement.
pub data Argument : Type 0 where
  sql_null : Argument
  text_argument : Text → Argument
  int_argument : ℤ → Argument

-- The column `metadata`: a dict, a text in JSON, or `None`; and `created_at`.
pub data MetadataColumn : Type 0 where
  dict_column : Dict Text → MetadataColumn
  json_column : Text → MetadataColumn
  no_metadata : MetadataColumn

pub data DateColumn : Type 0 where
  moment : ℕ → DateColumn
  iso_text : Text → DateColumn

pub record Row : Type 0 where
  pub id : Text
  pub tenant_id : Text
  pub source : Text
  pub content : Text
  pub metadata : MetadataColumn
  pub created_at : DateColumn

-- A connection to a database of type `D`: a cursor's `execute` and `fetchall` together, and `commit`.
pub record Connection (D : Type 0) : Type 0 where
  pub execute : Text → List Argument → Exec D (List Row)
  pub commit : Exec D Unit

abbrev pub insert_sql : Text
insert_sql =
    lit "INSERT INTO facts (id, tenant_id, source, content, metadata, created_at) "
    ++ lit "VALUES (%s, %s, %s, %s, %s::jsonb, %s)"

abbrev pub query_sql : Text
query_sql =
    lit "SELECT id, tenant_id, source, content, metadata, created_at FROM facts "
    ++ (lit "WHERE (%s::text IS NULL OR tenant_id = %s) "
        ++ (lit "AND content_tsv @@ plainto_tsquery('simple', %s) "
            ++ (lit "ORDER BY ts_rank(content_tsv, plainto_tsquery('simple', %s)) DESC, "
                ++ lit "created_at DESC LIMIT %s")))

abbrev pub all_for_sql : Text
all_for_sql =
    lit "SELECT id, tenant_id, source, content, metadata, created_at FROM facts "
    ++ lit "WHERE tenant_id = %s ORDER BY created_at DESC"

abbrev pub argument_of : Option Text → Argument
argument_of none = sql_null
argument_of (some s) = text_argument s

-- `meta or {}`
abbrev pub or_no_metadata : Option (Dict Text) → Dict Text
or_no_metadata none = []
or_no_metadata (some d) = d

module _ (codec : Codec) where
  abbrev pub read_metadata : MetadataColumn → Result (Dict Text)
  read_metadata (dict_column d) = ok d
  read_metadata (json_column s) = map_ok or_no_metadata (codec.loads s)
  read_metadata no_metadata = ok []

  abbrev pub read_date : DateColumn → Result ℕ
  read_date (moment t) = ok t
  read_date (iso_text s) = codec.fromisoformat s

  unfoldable pub row_to_fact : Row → Result Fact
  row_to_fact row = do
    metadata ← read_metadata row.metadata
    created ← read_date row.created_at
    ok (record {
      id = row.id;
      tenant_id = row.tenant_id;
      source = row.source;
      content = row.content;
      metadata = metadata;
      created_at = created;
    })
