-- ===== src/Onboarding.antt =====
-- `OnboardingFlow` of src/sample/onboarding/flow.py. The handlers of the event bus act on the bus and
-- on the stores; the default client has none.
pub mod Flow
use whatsapp_sales_saas_temp.Agent.Soul.{SoulConfig, build}
use whatsapp_sales_saas_temp.Events.{Bus, Event, publish}
use whatsapp_sales_saas_temp.Exec.{Exec, catch, gets, pure, raise, ◌>>=◌, ◌>>◌}
use whatsapp_sales_saas_temp.Models.{Tenant}
use whatsapp_sales_saas_temp.Prelude.{
  Bool, Option, Text, [], false, lit, none, some, true, ℕ, ◌++◌, ◌∷◌,
}
use whatsapp_sales_saas_temp.Result.{Error, ok, onboarding_error, value_error}
use whatsapp_sales_saas_temp.Slug.{slugify}
use whatsapp_sales_saas_temp.Slug.Unique.{unique_slug}
use whatsapp_sales_saas_temp.Tenant.Fleet.{Fleet, in_repo}
use whatsapp_sales_saas_temp.Tenant.Manager.{create, get_tenant}
use whatsapp_sales_saas_temp.Tenant.Repository.{Repository, by_phone_number_id, update}
use whatsapp_sales_saas_temp.Tenant.Supervisor.{bring_up}
use whatsapp_sales_saas_temp.Unicode.{Unicode}

pub record MetaSignupPayload : Type 0 where
  pub phone_number_id : Text
  pub business_name : Text
  pub waba_id : Option Text
  pub business_id : Option Text

pub record OnboardingResult : Type 0 where
  pub tenant : Tenant
  pub is_new : Bool

-- `render_soul` of `TenantManager`
unfoldable pub render_soul : Text → Option SoulConfig → Exec Repository Text
unfolding get_tenant
render_soul tenant_id cfg = do tenant ← get_tenant tenant_id; pure (build tenant cfg)

abbrev pub onboarded : ℕ → Tenant → MetaSignupPayload → Event
onboarded now tenant payload = record {
  type = lit "tenant.onboarded";
  payload =
      (lit "tenant_id", some tenant.id)
      ∷ (lit "slug", some tenant.slug)
      ∷ (lit "phone_number_id", some payload.phone_number_id)
      ∷ (lit "business_name", some payload.business_name)
      ∷ (lit "waba_id", payload.waba_id)
      ∷ (lit "business_id", payload.business_id)
      ∷ [];
  at = now;
}

-- `except ValueError as exc: raise OnboardingError(...)`
abbrev pub create_failed : Error → Error
create_failed (value_error m) = onboarding_error (lit "failed to create tenant: " ++ m)
create_failed e = e

abbrev pub with_phone : Text → Tenant → Tenant
with_phone p t = record t { whatsapp_phone_number_id = some p }

-- Everything between the lookup and the event.
unfoldable pub provision : Unicode → Text → ℕ → MetaSignupPayload → Exec Fleet Tenant
provision u id now payload = do
  slug ← gets (λ f. unique_slug (slugify u payload.business_name) f.repo)
  made ←
      in_repo
        (catch (create u id now payload.business_name slug none) (λ e. raise (create_failed e)))
  tenant ← in_repo (update (with_phone payload.phone_number_id made))
  in_repo (render_soul tenant.id none)
  bring_up tenant.id

module _ {H : Type 0} (react : H → Event → Exec (Bus H × Fleet) Unit) where
  abbrev pub in_fleet : {A : Type 0} → Exec Fleet A → Exec (Bus H × Fleet) A
  in_fleet m (b, f) = let (r, f') = m f in (r, (b, f'))

  abbrev pub known : Tenant → OnboardingResult
  known t = record { tenant = t; is_new = false }

  unfoldable pub onboard :
      Unicode → Text → ℕ → MetaSignupPayload → Exec (Bus H × Fleet) OnboardingResult
  onboard u id now payload = do
    tenant ← in_fleet (provision u id now payload)
    publish react (onboarded now tenant payload)
    pure (record { tenant = tenant; is_new = true })

  -- `id` and `now` are what `uuid4` and the clock give.
  unfoldable pub run :
      Unicode → Text → ℕ → MetaSignupPayload → Exec (Bus H × Fleet) OnboardingResult
  unfolding onboard
  run u id now payload (b, f) = elim (by_phone_number_id payload.phone_number_id f.repo) [
    | some existing ↦ (ok (known existing), (b, f))
    | none ↦ onboard u id now payload (b, f)
  ]
