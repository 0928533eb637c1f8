-- ===== src/Api/Tenants.antt =====
-- The tenant handlers of services/api/main.py. An `HTTPException` is the answer `refused`; what a
-- handler does not catch is the result `err`. `isoformat` prints a time.
pub mod Stored
pub mod Kept
pub mod Growth
use whatsapp_sales_saas_temp.Events.{Bus, Event}
use whatsapp_sales_saas_temp.Exec.{Exec, pure, raise, ◌>>=◌}
use whatsapp_sales_saas_temp.Models.{Tenant, TenantStatus, active, provisioning, suspended}
use whatsapp_sales_saas_temp.Onboarding.{
  MetaSignupPayload, OnboardingResult, render_soul, run, with_phone,
}
use whatsapp_sales_saas_temp.Prelude.{
  Bool, List, Option, Text, [], if◌then◌else◌, is_some, lit, map, none, some, ℕ, ◌||◌, ◌∷◌,
}
use whatsapp_sales_saas_temp.Result.{
  Error, Result, err, int_key_error, key_error, message, ok, onboarding_error, skill_not_found,
  value_error,
}
use whatsapp_sales_saas_temp.Skills.LeadQualifier.{found}
use whatsapp_sales_saas_temp.Tenant.Fleet.{Fleet}
use whatsapp_sales_saas_temp.Tenant.Manager.{create, get_tenant}
use whatsapp_sales_saas_temp.Tenant.Repository.{Repository, list_all, update}
use whatsapp_sales_saas_temp.Unicode.{Unicode}

pub data Reply (A : Type 0) : Type 0 where
  answered : A → Reply A
  refused : ℕ → Text → Reply A

pub record TenantCreate : Type 0 where
  pub name : Text
  pub slug : Text
  pub model : Option Text
  pub whatsapp_phone_number_id : Option Text

pub record TenantUpdate : Type 0 where
  pub model : Option Text
  pub whatsapp_phone_number_id : Option Text

pub record TenantOut : Type 0 where
  pub id : Text
  pub name : Text
  pub slug : Text
  pub status : Text
  pub model : Text
  pub whatsapp_phone_number_id : Option Text
  pub created_at : Text

abbrev pub status_name : TenantStatus → Text
status_name provisioning = lit "PROVISIONING"
status_name active = lit "ACTIVE"
status_name suspended = lit "SUSPENDED"

unfoldable pub from_tenant : (ℕ → Text) → Tenant → TenantOut
from_tenant isoformat t = record {
  id = t.id;
  name = t.name;
  slug = t.slug;
  status = status_name t.status;
  model = t.model;
  whatsapp_phone_number_id = t.whatsapp_phone_number_id;
  created_at = isoformat t.created_at;
}

-- `except ValueError as exc: raise HTTPException(status_code=409, …)`
abbrev pub conflict : {A : Type 0} → (Text → Text) → Error → Exec Repository (Reply A)
conflict repr (value_error m) = pure (refused 409 (message repr (value_error m)))
conflict repr e = raise e

-- `except KeyError as exc: raise HTTPException(status_code=404, detail="tenant not found")`
abbrev pub not_found : {A : Type 0} → Error → Exec Repository (Reply A)
not_found (key_error m) = pure (refused 404 (lit "tenant not found"))
not_found (int_key_error n) = pure (refused 404 (lit "tenant not found"))
not_found (skill_not_found m) = pure (refused 404 (lit "tenant not found"))
not_found e = raise e

-- `try: x = m() except …`, and then the rest, whose exceptions are not caught
abbrev pub settle :
    {A B : Type 0}
    → (Error → Exec Repository (Reply B))
    → (A → Exec Repository (Reply B))
    → Result A
    → Exec Repository (Reply B)
settle refuse go (ok a) s = go a s
settle refuse go (err e) s = refuse e s

abbrev pub unless :
    {A B : Type 0}
    → Exec Repository A
    → (Error → Exec Repository (Reply B))
    → (A → Exec Repository (Reply B))
    → Exec Repository (Reply B)
unless m refuse go s = let (r, s') = m s in settle refuse go r s'

-- `if phone: … update(tenant.model_copy(…))`
abbrev pub connected : Option Text → Tenant → Exec Repository Tenant
connected none t = pure t
connected (some []) t = pure t
connected (some (c ∷ p)) t = update (with_phone (c ∷ p) t)

abbrev pub with_model : Option Text → Tenant → Tenant
with_model none t = t
with_model (some m) t = record t { model = m }

abbrev pub with_number : Option Text → Tenant → Tenant
with_number none t = t
with_number (some p) t = with_phone p t

-- `if updates:`
abbrev pub patched : TenantUpdate → Tenant → Exec Repository Tenant
patched req t =
    if is_some req.model || is_some req.whatsapp_phone_number_id
    then update (with_number req.whatsapp_phone_number_id (with_model req.model t))
    else pure t

module _ (u : Unicode) (isoformat : ℕ → Text) where
  unfoldable pub list_tenants : Repository → List TenantOut
  list_tenants r = map (from_tenant isoformat) (list_all r)

  -- `id` and `now` are what `uuid4` and the clock give to a new tenant.
  unfoldable pub create_tenant : Text → ℕ → TenantCreate → Exec Repository (Reply TenantOut)
  create_tenant id now req =
      unless (create u id now req.name req.slug req.model) (conflict u.repr) (λ made.
        connected req.whatsapp_phone_number_id made >>= λ tenant.
        pure (answered (from_tenant isoformat tenant)))

  unfoldable pub show_tenant : Text → Exec Repository (Reply TenantOut)
  show_tenant tenant_id =
      unless (get_tenant tenant_id) not_found
        (λ tenant. pure (answered (from_tenant isoformat tenant)))

  unfoldable pub update_tenant : Text → TenantUpdate → Exec Repository (Reply TenantOut)
  update_tenant tenant_id req =
      unless (get_tenant tenant_id) not_found
        (λ found. patched req found >>= λ tenant. pure (answered (from_tenant isoformat tenant)))

unfoldable pub show_tenant_soul : Text → Exec Repository (Reply Text)
show_tenant_soul tenant_id =
    unless (render_soul tenant_id none) not_found (λ soul. pure (answered soul))

pub record OnboardingRequest : Type 0 where
  pub phone_number_id : Text
  pub business_name : Text
  pub waba_id : Option Text
  pub business_id : Option Text

abbrev pub payload_of : OnboardingRequest → MetaSignupPayload
payload_of req = record {
  phone_number_id = req.phone_number_id;
  business_name = req.business_name;
  waba_id = req.waba_id;
  business_id = req.business_id;
}

pub record OnboardingResponse : Type 0 where
  pub tenant_id : Text
  pub slug : Text
  pub is_new : Bool

abbrev pub onboarding_out : OnboardingResult → OnboardingResponse
onboarding_out r = record { tenant_id = r.tenant.id; slug = r.tenant.slug; is_new = r.is_new }

abbrev pub onboarding_reply : Result OnboardingResult → Result (Reply OnboardingResponse)
onboarding_reply (ok r) = ok (answered (onboarding_out r))
onboarding_reply (err (onboarding_error m)) = ok (refused 422 m)
onboarding_reply (err e) = err e

module _ {H : Type 0} (react : H → Event → Exec (Bus H × Fleet) Unit) where
  unfoldable pub connect_whatsapp :
      Unicode → Text → ℕ → OnboardingRequest → Exec (Bus H × Fleet) (Reply OnboardingResponse)
  connect_whatsapp u id now req s =
      let (r, s') = run react u id now (payload_of req) s in (onboarding_reply r, s')
