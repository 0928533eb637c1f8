-- ===== src/Models.antt =====
-- src/sample/models.py. A `datetime` is the number of microseconds since an epoch.
use whatsapp_sales_saas_temp.Prelude.{List, Option, Text, lit, ℕ}

pub data TenantStatus : Type 0 where
  provisioning active suspended : TenantStatus

pub record Tenant : Type 0 where
  pub id : Text
  pub name : Text
  pub slug : Text
  pub status : TenantStatus
  pub whatsapp_phone_number_id : Option Text
  pub model : Text
  pub created_at : ℕ

pub record Fact : Type 0 where
  pub id : Text
  pub tenant_id : Text
  pub source : Text
  pub content : Text
  pub metadata : List (Text × Text)
  pub created_at : ℕ

pub record InboundMessage : Type 0 where
  pub tenant_id : Text
  pub from_number : Text
  pub text : Text
  pub message_id : Text
  pub received_at : ℕ

-- The default of `Tenant.model`.
abbrev pub default_model : Text
default_model = lit "anthropic/claude-3.5-sonnet"
