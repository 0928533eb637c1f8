-- ===== src/System.antt =====
-- The whole service as a step relation: the requests of services/api/main.py, the supervisor and the
-- ingestion of files act, in any order, on the stores of one client and on its event bus. The gateway
-- is the in-memory one; the model and all code that is only called are parameters.
pub mod Invariant
pub mod Steps
use whatsapp_sales_saas_temp.Api.App.{App}
use whatsapp_sales_saas_temp.Api.Tenants.{
  OnboardingRequest, TenantCreate, TenantUpdate, connect_whatsapp, create_tenant, update_tenant,
}
use whatsapp_sales_saas_temp.Api.Webhook.{webhook_receive}
use whatsapp_sales_saas_temp.Client.{new_client, nothing_given}
use whatsapp_sales_saas_temp.Dict.{Dict}
use whatsapp_sales_saas_temp.Events.{Bus, Event}
use whatsapp_sales_saas_temp.Exec.{Exec}
use whatsapp_sales_saas_temp.Ingestion.Extractors.{Extractor, FilePath}
use whatsapp_sales_saas_temp.Ingestion.Preprocessor.{process}
use whatsapp_sales_saas_temp.Llm.{LlmPort}
use whatsapp_sales_saas_temp.Prelude.{List, Option, Text, [], none, ℕ, ◌≡◌}
use whatsapp_sales_saas_temp.Result.{Result}
use whatsapp_sales_saas_temp.Tenant.Fleet.{Fleet}
use whatsapp_sales_saas_temp.Tenant.Repository.{Repository, get}
use whatsapp_sales_saas_temp.Tenant.Supervisor.{bring_down, bring_up}
use whatsapp_sales_saas_temp.Unicode.{Unicode}
use whatsapp_sales_saas_temp.Value.{Value}
use whatsapp_sales_saas_temp.Whatsapp.Gateway.{Outbox, in_memory_gateway}

pub record World (H L : Type 0) : Type 0 where
  pub bus : Bus H
  pub app : App Outbox L

-- The code that the service only calls, and its secret.
pub record Outside (H L : Type 0) : Type 0 where
  pub u : Unicode
  pub isoformat : ℕ → Text
  pub hex : ℕ → Text
  pub llm : LlmPort L
  pub hmac_hex : Text → List ℕ → Text
  pub parse_json : List ℕ → Result Value
  pub app_secret : Text
  pub show_tuple : List Text → Text
  pub extractors : Dict Extractor
  pub react : H → Event → Exec (Bus H × Fleet) Unit

-- A client that was given nothing, with a new echo model's or another model's state.
abbrev pub started_with : {H L : Type 0} → L → World H L
started_with llm = record {
  bus = record { events = []; handlers = [] };
  app = new_client (record { sent = [] }) llm nothing_given;
}

module _ {H L : Type 0} (o : Outside H L) where
  abbrev pub with_repo : World H L → Repository → World H L
  with_repo w r = record w { app = record (w.app) { fleet = record (w.app.fleet) { repo = r } } }

  abbrev pub with_fleet : World H L → Fleet → World H L
  with_fleet w f = record w { app = record (w.app) { fleet = f } }

  abbrev pub after_create : Text → ℕ → TenantCreate → World H L → World H L
  after_create id now req w =
      with_repo w (create_tenant o.u o.isoformat id now req w.app.fleet.repo).1

  abbrev pub after_update : Text → TenantUpdate → World H L → World H L
  after_update k req w = with_repo w (update_tenant o.u o.isoformat k req w.app.fleet.repo).1

  abbrev pub after_connect : Text → ℕ → OnboardingRequest → World H L → World H L
  after_connect id now req w =
      let (r, (b, f)) = connect_whatsapp o.react o.u id now req (w.bus, w.app.fleet) in
      record { bus = b; app = record (w.app) { fleet = f } }

  abbrev pub after_receive : ℕ → List ℕ → Text → World H L → World H L
  after_receive now body header w = record w {
    app =
        (webhook_receive o.u (in_memory_gateway o.hex) o.llm o.hmac_hex o.parse_json o.app_secret
          now body header w.app).1;
  }

  abbrev pub after_ingest :
      (ℕ → Text) → (ℕ → ℕ) → FilePath → Text → Option Text → World H L → World H L
  after_ingest ids now path tenant_id label w = record w {
    app = record (w.app) {
      hindsight =
          (process o.u o.show_tuple o.extractors ids now path tenant_id label w.app.hindsight).1;
    };
  }

  -- One request, one call of the supervisor, or one file. A tenant that is made gets a new id.
  pub data Step (w : World H L) : World H L → Type 0 where
    creates :
        (id : Text) (now : ℕ) (req : TenantCreate)
        → get id w.app.fleet.repo ≡ none
        → Step w (after_create id now req w)
    updates : (k : Text) (req : TenantUpdate) → Step w (after_update k req w)
    connects :
        (id : Text) (now : ℕ) (req : OnboardingRequest)
        → get id w.app.fleet.repo ≡ none
        → Step w (after_connect id now req w)
    brings_up : (k : Text) → Step w (with_fleet w (bring_up k w.app.fleet).1)
    brings_down : (k : Text) → Step w (with_fleet w (bring_down k w.app.fleet).1)
    receives : (now : ℕ) (body : List ℕ) (header : Text) → Step w (after_receive now body header w)
    ingests :
        (ids : ℕ → Text) (now : ℕ → ℕ) (path : FilePath) (tenant_id : Text) (label : Option Text)
        → Step w (after_ingest ids now path tenant_id label w)

  pub data Reach (llm : L) : World H L → Type 0 where
    begins : Reach llm (started_with llm)
    continues : {v w : World H L} → Reach llm v → Step v w → Reach llm w
