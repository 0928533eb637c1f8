-- ===== src/Memory/Honcho.antt =====
-- src/sample/memory/buyer.py: `HonchoBuyerMemory`. The SDK's client is a parameter.
pub mod Listed
use whatsapp_sales_saas_temp.Dict.{Dict}
use whatsapp_sales_saas_temp.Exec.{Exec, lift, pure, ◌>>=◌}
use whatsapp_sales_saas_temp.Memory.{BuyerInteraction, Role, buyer}
use whatsapp_sales_saas_temp.Prelude.{List, Option, Text, [], lit, none, pos, some, ℕ, ℤ}
use whatsapp_sales_saas_temp.Result.{Result, map_ok, ok, traverse}
use whatsapp_sales_saas_temp.Value.{Value, to_text}

-- The value of `at` in a listed message: a `datetime`, a text, or anything else.
pub data Instant : Type 0 where
  instant : ℕ → Instant
  written_instant : Text → Instant
  no_instant : Instant

-- A message as the SDK lists it; `content` is there, and the roles are those that were appended.
pub record ListedMessage : Type 0 where
  pub content : Value
  pub role : Option Role
  pub at : Instant
  pub metadata : Option (Dict Text)

pub record AppendedMessage : Type 0 where
  pub namespace : Text
  pub user_id : Text
  pub content : Text
  pub role : Role
  pub metadata : Dict Text
  pub at : Text

-- `H` is the state behind the client.
pub record HonchoClient (H : Type 0) : Type 0 where
  pub append_message : AppendedMessage → Exec H Unit
  pub list_messages : Text → Text → Option ℤ → Exec H (List ListedMessage)
  pub dialectic_summary : Text → Text → ℤ → Exec H Value

pub record HonchoMemory (H : Type 0) : Type 0 where
  pub client : HonchoClient H
  pub namespace : Text
  pub dialectic_depth : ℤ

-- The defaults of `HonchoBuyerMemory.__init__`.
abbrev pub honcho_memory : {H : Type 0} → HonchoClient H → HonchoMemory H
honcho_memory client = record { client = client; namespace = lit "sample"; dialectic_depth = pos 2 }

-- `item.get("role", "buyer")`
abbrev pub or_buyer : Option Role → Role
or_buyer none = buyer
or_buyer (some r) = r

-- `dict(item.get("metadata") or {})`
abbrev pub or_no_fields : Option (Dict Text) → Dict Text
or_no_fields none = []
or_no_fields (some d) = d

module _ (fromisoformat : Text → Result ℕ) (now : ℕ) where
  -- `_parse_dt`; `now` is the clock.
  unfoldable pub parse_dt : Instant → Result ℕ
  parse_dt (instant t) = ok t
  parse_dt (written_instant s) = fromisoformat s
  parse_dt no_instant = ok now

  abbrev pub with_time : (Value → Text) → ListedMessage → ℕ → BuyerInteraction
  with_time show item t = record {
    text = to_text show item.content;
    role = or_buyer item.role;
    at = t;
    metadata = or_no_fields item.metadata;
  }

  abbrev pub interaction_of : (Value → Text) → ListedMessage → Result BuyerInteraction
  interaction_of show item = map_ok (with_time show item) (parse_dt item.at)

module _ {H : Type 0} (m : HonchoMemory H) where
  unfoldable pub honcho_remember : (ℕ → Text) → Text → BuyerInteraction → Exec H Unit
  honcho_remember isoformat buyer_id x = (m.client).append_message (record {
    namespace = m.namespace;
    user_id = buyer_id;
    content = x.text;
    role = x.role;
    metadata = x.metadata;
    at = isoformat x.at;
  })

  unfoldable pub honcho_recall :
      (Value → Text) → (Text → Result ℕ) → ℕ → Text → Option ℤ → Exec H (List BuyerInteraction)
  honcho_recall show fromisoformat now buyer_id limit = do
    raw ← (m.client).list_messages m.namespace buyer_id limit
    lift (traverse (interaction_of fromisoformat now show) raw)

  unfoldable pub honcho_summary : (Value → Text) → Text → Exec H Text
  honcho_summary show buyer_id = do
    result ← (m.client).dialectic_summary m.namespace buyer_id m.dialectic_depth
    pure (to_text show result)
